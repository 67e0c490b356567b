-- ===== src/Store/Thread/Descendants/Closed.antt =====
-- `GetThread` returns with a row also the replies to it.
use tmux_tell.Common.{
  ℕ, zero, suc, String, Bool, true, false, Option, none, some, List, [], ◌∷◌, ◌++◌, ◌≡◌, ◌⊎◌, refl,
  sym, ap, ◌∙◌, inl, inr, arith, if_cases, ◌||◌, str_eq, eq_iff, eq_refl, length, select_rows,
  any_row, any_row-append, In, subst, Bool-cases, or-true, In-select_rows,
}
use tmux_tell.Store.Tables.{Message, Store}
use tmux_tell.Store.Insert.{has_public_id}
use tmux_tell.Store.Thread.Root.{IsEnded, find_thread_root-IsEnded, unseen, count_rows-length}
use tmux_tell.Store.Thread.Descendants.{IsFound, search_down-IsFound}
use tmux_tell.Store.Thread.{
  Thread, rows, not_found, cyclic, out_of_fuel, Walk, root, missing, cycle, unfinished, collected,
  below_root, get_thread, find_thread_root, insert_by_id, sort_by_id, has_text, replies_to, Search,
  visit, visit_all, next_round, search_down, first_visit,
}

has_text-append :
    (t : String) (us : List String) (u : String)
    → has_text t (us ++ u ∷ []) ≡ (has_text t us || str_eq t u)
has_text-append t [] u = ground arith
has_text-append t (v ∷ us) u = ground (arith, has_text-append t us u)

-- What a visit keeps and what it adds.
visit_keeps :
    (t : String) (c : Message) (x : Search)
    → has_text t x.visited ≡ true
    → has_text t (visit c x).visited ≡ true
visit_keeps t c x h =
    if_cases (λ (y : Search). has_text t y.visited ≡ true) (has_text c.public_id x.visited) (λ _. h)
      (λ _. ground arith)

visit_queues :
    (t : String) (c : Message) (x : Search)
    → has_text t x.queue ≡ true
    → has_text t (visit c x).queue ≡ true
visit_queues t c x h =
    if_cases (λ (y : Search). has_text t y.queue ≡ true) (has_text c.public_id x.visited) (λ _. h)
      (λ _. has_text-append t x.queue c.public_id ∙ rw h refl)

visit_sees : (c : Message) (x : Search) → has_text c.public_id (visit c x).visited ≡ true
visit_sees c x =
    if_cases (λ (y : Search). has_text c.public_id y.visited ≡ true)
      (has_text c.public_id x.visited) (λ t. t) (λ _. rw (eq_refl c.public_id) refl)

visit_new :
    (t : String) (c : Message) (x : Search)
    → has_text t (visit c x).visited ≡ true
    → (has_text t x.visited ≡ true) ⊎ (has_text t (visit c x).queue ≡ true)
visit_new t c x h = elim (Bool-cases (has_text c.public_id x.visited)) [
  | inl s ↦ inl (rw s at h)
  | inr f ↦ elim (or-true (str_eq t c.public_id) (has_text t x.visited) (rw f at h)) [
    | inl e ↦ inr (rw f (has_text-append t x.queue c.public_id ∙ rw e (ground arith)))
    | inr s ↦ inl s
  ]
]

all_keeps :
    (t : String) (cs : List Message) (x : Search)
    → has_text t x.visited ≡ true
    → has_text t (visit_all cs x).visited ≡ true
all_keeps t [] x h = h
all_keeps t (c ∷ cs) x h = all_keeps t cs (visit c x) (visit_keeps t c x h)

all_queues :
    (t : String) (cs : List Message) (x : Search)
    → has_text t x.queue ≡ true
    → has_text t (visit_all cs x).queue ≡ true
all_queues t [] x h = h
all_queues t (c ∷ cs) x h = all_queues t cs (visit c x) (visit_queues t c x h)

all_see :
    (c : Message) (cs : List Message) (x : Search)
    → In c cs
    → has_text c.public_id (visit_all cs x).visited ≡ true
all_see c [] x i = absurd i
all_see c (d ∷ cs) x (inl e) =
    all_keeps c.public_id cs (visit d x)
      (ap (λ (w : Message). has_text w.public_id (visit d x).visited) e ∙ visit_sees d x)
all_see c (d ∷ cs) x (inr i) = all_see c cs (visit d x) i

all_new :
    (t : String) (cs : List Message) (x : Search)
    → has_text t (visit_all cs x).visited ≡ true
    → (has_text t x.visited ≡ true) ⊎ (has_text t (visit_all cs x).queue ≡ true)
all_new t [] x h = inl h
all_new t (c ∷ cs) x h = elim (all_new t cs (visit c x) h) [
  | inl s ↦ elim (visit_new t c x s) [ inl k ↦ inl k | inr q ↦ inr (all_queues t cs (visit c x) q) ]
  | inr q ↦ inr q
]

-- Of a reply to a seen id: the id waits in the queue, or the reply has been seen.
abbrev IsServed : Message → String → Search → Type 0
IsServed r i x =
    (has_text i x.visited ≡ false)
    ⊎ (has_text i x.queue ≡ true)
    ⊎ (has_text r.public_id x.visited ≡ true)

-- The rows found are those seen.
abbrev Tallies : Search → Type 0
Tallies x = (t : String) → has_text t x.visited ≡ any_row (has_public_id t) x.out

str_eq_comm : (a b : String) → str_eq a b ≡ str_eq b a
str_eq_comm a b = ground (arith, eq_iff a b, eq_iff b a)

visit-Tallies : (c : Message) (x : Search) → Tallies x → Tallies (visit c x)
visit-Tallies c x h t =
    if_cases (λ (y : Search). has_text t y.visited ≡ any_row (has_public_id t) y.out)
      (has_text c.public_id x.visited) (λ _. h t)
      (λ _.
        let a = any_row-append (has_public_id t) x.out (c ∷ []) in
        let b = str_eq_comm t c.public_id in let k = h t in ground arith)

all-Tallies : (cs : List Message) (x : Search) → Tallies x → Tallies (visit_all cs x)
all-Tallies [] x h = h
all-Tallies (c ∷ cs) x h = all-Tallies cs (visit c x) (visit-Tallies c x h)

module _ (s : Store) where
  abbrev Serves : Search → Type 0
  Serves x = (r : Message) (i : String) → In r s.messages → replies_to i r ≡ true → IsServed r i x

  abbrev round_of : String → List String → Search → Search
  round_of q qs x = visit_all (select_rows (replies_to q) s.messages) (record x { queue = qs })

  round-Serves :
      (q : String) (qs : List String) (x : Search)
      → x.queue ≡ q ∷ qs
      → Serves x
      → Serves (round_of q qs x)
  round-Serves q qs x e h r i j p = elim (Bool-cases (has_text i (round_of q qs x).visited)) [
    | inr f ↦ inl f
    | inl t ↦ elim (all_new i (select_rows (replies_to q) s.messages) (record x { queue = qs }) t) [
      | inr w ↦ inr (inl w)
      | inl v ↦ elim (h r i j p) [
        | inl n ↦ absurd (ground arith)
        | inr (inr k) ↦ inr (
            inr (
              all_keeps r.public_id (select_rows (replies_to q) s.messages)
                (record x { queue = qs }) k))
        | inr (inl w) ↦ elim (or-true (str_eq i q) (has_text i qs) (sym (ap (has_text i) e) ∙ w)) [
          | inr l ↦ inr (
              inl
                (all_queues i (select_rows (replies_to q) s.messages) (record x { queue = qs }) l))
          | inl m ↦
              let u = subst (λ (k : String). replies_to k r ≡ true) ((eq_iff i q).0 m) p in
              inr (
                inr (
                  all_see r (select_rows (replies_to q) s.messages) (record x { queue = qs })
                    (In-select_rows (replies_to q) s.messages r j u)))
        ]
      ]
    ]
  ]

  abbrev Finished : Option Search → Type 0
  Finished none = Unit
  Finished (some y) = (y.queue ≡ []) × Tallies y × Serves y

  search_down-Finished :
      (fuel : ℕ) (x : Search) → Tallies x → Serves x → Finished (search_down fuel x s)
  unfolding search_down
  search_down-Finished zero x t h = go x.queue refl
    where
      go : (qs : List String) → x.queue ≡ qs → Finished (next_round qs x s (λ y. none))
      go [] e = (e, t, h)
      go (q ∷ qs) e = tt
  search_down-Finished (suc fuel) x t h = go x.queue refl (λ y a b. search_down-Finished fuel y a b)
    where
      go :
          (qs : List String)
          → x.queue ≡ qs
          → ((y : Search) → Tallies y → Serves y → Finished (search_down fuel y s))
          → Finished (next_round qs x s (λ y. search_down fuel y s))
      go [] e rest = (e, t, h)
      go (q ∷ qs) e rest =
          rest (round_of q qs x)
            (all-Tallies (select_rows (replies_to q) s.messages) (record x { queue = qs }) t)
            (round-Serves q qs x e h)

  first-Tallies : (m : Message) → Tallies (first_visit m)
  first-Tallies m t = ground (arith, str_eq_comm t m.public_id)

  first-Serves : (m : Message) → Serves (first_visit m)
  first-Serves m r i j p = elim (Bool-cases (str_eq i m.public_id)) [
    | inl t ↦ inr (inl (rw t refl))
    | inr f ↦ inl (rw f refl)
  ]

any_row-insert :
    (p : Message → Bool) (m : Message) (ms : List Message)
    → any_row p (insert_by_id m ms) ≡ (p m || any_row p ms)
any_row-insert p m [] = refl
any_row-insert p m (x ∷ ms) = ground (arith, any_row-insert p m ms)

any_row-sort : (p : Message → Bool) (ms : List Message) → any_row p (sort_by_id ms) ≡ any_row p ms
any_row-sort p [] = refl
any_row-sort p (m ∷ ms) =
    any_row-insert p m (sort_by_id ms) ∙ ap (λ (b : Bool). p m || b) (any_row-sort p ms)

-- In a thread that was collected, a seen id has its replies seen.
abbrev Collects : Store → Message → String → Thread → Type 0
Collects s r i (rows ms) =
    (any_row (has_public_id i) ms ≡ false) ⊎ (any_row (has_public_id r.public_id) ms ≡ true)
Collects s r i not_found = Unit
Collects s r i (cyclic j) = Unit
Collects s r i out_of_fuel = Unit

collected-Collects :
    (s : Store) (r : Message) (i : String) (o : Option Search)
    → In r s.messages
    → replies_to i r ≡ true
    → Finished s o
    → Collects s r i (collected o)
collected-Collects s r i none j p f = tt
collected-Collects s r i (some y) j p (e, t, h) =
    let a = any_row-sort (has_public_id i) y.out in
    let b = any_row-sort (has_public_id r.public_id) y.out in
    elim (h r i j p) [
      | inl n ↦ inl (a ∙ sym (t i) ∙ n)
      | inr (inl q) ↦ absurd (let z = ap (has_text i) e in ground arith)
      | inr (inr v) ↦ inr (b ∙ sym (t r.public_id) ∙ v)
    ]

below_root-Collects :
    (s : Store) (r : Message) (i : String) (w : Walk)
    → In r s.messages
    → replies_to i r ≡ true
    → Collects s r i (below_root w s)
unfolding search_down
below_root-Collects s r i (root m) j p =
    collected-Collects s r i (search_down (suc (length s.messages)) (first_visit m) s) j p (
      search_down-Finished s (suc (length s.messages)) (first_visit m) (first-Tallies s m)
        (first-Serves s m))
below_root-Collects s r i missing j p = tt
below_root-Collects s r i (cycle k) j p = tt
below_root-Collects s r i unfinished j p = tt

-- A thread that `GetThread` returns holds with each message every reply to it in the table.
pub get_thread-replies :
    (any : String) (s : Store) (ms : List Message) (r : Message) (i : String)
    → get_thread any s ≡ rows ms
    → any_row (has_public_id i) ms ≡ true
    → In r s.messages
    → replies_to i r ≡ true
    → any_row (has_public_id r.public_id) ms ≡ true
unfolding get_thread
get_thread-replies any s ms r i e h j p =
    elim (subst (Collects s r i) e (below_root-Collects s r i (find_thread_root any s) j p)) [
      | inl n ↦ absurd (ground arith)
      | inr v ↦ v
    ]

abbrev pub IsGathered : Thread → Type 0
IsGathered (rows ms) = Unit
IsGathered not_found = Unit
IsGathered (cyclic i) = Unit
IsGathered out_of_fuel = ⊥

collected-IsGathered : (o : Option Search) → IsFound o → IsGathered (collected o)
collected-IsGathered none f = absurd f
collected-IsGathered (some x) f = tt

below_root-IsGathered : (w : Walk) (s : Store) → IsEnded w → IsGathered (below_root w s)
unfolding search_down
below_root-IsGathered (root m) s w =
    let l = count_rows-length (unseen (m.public_id ∷ [])) s.messages in
    collected-IsGathered (search_down (suc (length s.messages)) (first_visit m) s)
      (search_down-IsFound (suc (length s.messages)) (first_visit m) s (omega arith))
below_root-IsGathered missing s w = tt
below_root-IsGathered (cycle i) s w = tt
below_root-IsGathered unfinished s w = absurd w

-- `GetThread` ends on every table, also one whose replies form a cycle: it returns a thread, finds a
-- row missing or reports the cycle, and its fuel does not run out.
pub get_thread-IsGathered : (any : String) (s : Store) → IsGathered (get_thread any s)
unfolding get_thread
get_thread-IsGathered any s =
    below_root-IsGathered (find_thread_root any s) s (find_thread_root-IsEnded any s)
