-- ===== src/Store/Claim/Choice.antt =====
-- What a claim takes: the row that the scheduler chooses among those that the agent may receive.
use tmux_tell.Common.{
  ℕ, ◌<◌, String, Bool, true, false, none, some, List, [], ◌∷◌, map, ◌≡◌, refl, sym, ap, ◌∙◌, ◌⊎◌,
  inl, inr, In, All-In, arith, Bool-cases, Option-cases, first_row, select_rows, update_rows,
  ==_iff, ◌==◌, if◌then◌else◌, subst,
}
use tmux_tell.Names.{canonical_name}
use tmux_tell.Store.Schedule.{Candidate, Strategy, select_scheduled}
use tmux_tell.Store.Schedule.Choice.{IsScheduled, IsScheduled-of_some, select_scheduled-IsScheduled}
use tmux_tell.Store.Tables.{State, Message, Store, ok}
use tmux_tell.Store.Integrity.{Key, key, IsSound, Ascends}
use tmux_tell.Store.Claim.{
  backlog_floor, eligible, candidate, has_id, with_state, candidates, claim_next_with_strategy,
}

-- A row that passes the test, in the table.
record Selected (p : Message → Bool) (ms : List Message) (c : Candidate) : Type 0 where
  row : Message
  row_in : In row ms
  passes : p row ≡ true
  shown : candidate row ≡ c

Selected-later :
    {p : Message → Bool} {ms : List Message} {c : Candidate} (m : Message)
    → Selected p ms c
    → Selected p (m ∷ ms) c
Selected-later m s = record {
  row = s.row;
  row_in = inr s.row_in;
  passes = s.passes;
  shown = s.shown;
}

Selected-head :
    (p : Message → Bool) (ms : List Message) (c : Candidate) (m : Message)
    → p m ≡ true
    → (In c (map candidate (select_rows p ms)) → Selected p ms c)
    → In c (candidate m ∷ map candidate (select_rows p ms))
    → Selected p (m ∷ ms) c
Selected-head p ms c m t rest (inl e) = record {
  row = m;
  row_in = inl refl;
  passes = t;
  shown = sym e;
}
Selected-head p ms c m t rest (inr j) = Selected-later m (rest j)

In-candidates :
    (p : Message → Bool) (ms : List Message) (c : Candidate)
    → In c (map candidate (select_rows p ms))
    → Selected p ms c
In-candidates p [] c i = absurd i
In-candidates p (m ∷ ms) c i =
    let shown =
      λ (b : Bool). In c (map candidate (if b then m ∷ select_rows p ms else select_rows p ms)) in
    elim (Bool-cases (p m)) [
      | inl t ↦ Selected-head p ms c m t (In-candidates p ms c) (subst shown t i)
      | inr f ↦ Selected-later m (In-candidates p ms c (subst shown f i))
    ]

pub In-key : (m : Message) (ms : List Message) → In m ms → In (key m) (map key ms)
In-key m [] i = absurd i
In-key m (n ∷ ms) (inl e) = inl (ap key e)
In-key m (n ∷ ms) (inr i) = inr (In-key m ms i)

-- An id of the table is the id of one row.
pub same_id-eq :
    (ms : List Message) (m n : Message)
    → Ascends (map key ms)
    → In m ms
    → In n ms
    → n.id ≡ m.id
    → n ≡ m
same_id-eq [] m n a i j h = absurd i
same_id-eq (x ∷ ms) m n (a, up) (inl d) (inl e) h = e ∙ sym d
same_id-eq (x ∷ ms) m n (a, up) (inl d) (inr j) h =
    let l = All-In (λ (k : Key). x.id < k.id) (map key ms) (key n) a (In-key n ms j) in
    let q = ap (λ (w : Message). w.id) d in absurd (omega arith)
same_id-eq (x ∷ ms) m n (a, up) (inr i) (inl e) h =
    let l = All-In (λ (k : Key). x.id < k.id) (map key ms) (key m) a (In-key m ms i) in
    let q = ap (λ (w : Message). w.id) e in absurd (omega arith)
same_id-eq (x ∷ ms) m n (a, up) (inr i) (inr j) h = same_id-eq ms m n up i j h

record Found (i : ℕ) (ms : List Message) : Type 0 where
  row : Message
  row_in : In row ms
  row_id : row.id ≡ i
  found : first_row (has_id i) ms ≡ some row

first_row-Found : (i : ℕ) (ms : List Message) (m : Message) → In m ms → m.id ≡ i → Found i ms
first_row-Found i [] m j e = absurd j
first_row-Found i (x ∷ ms) m j e = elim (Bool-cases (x.id == i)) [
  | inl t ↦ record { row = x; row_in = inl refl; row_id = (==_iff x.id i).0 t; found = rw t refl }
  | inr f ↦ later f (first_row-Found i ms m (not_head f j) e)
]
  where
    not_head : (x.id == i) ≡ false → In m (x ∷ ms) → In m ms
    not_head f (inl d) =
        let q = ap (λ (w : Message). w.id) d in absurd (ground (arith, ==_iff x.id i))
    not_head f (inr k) = k

    later : (x.id == i) ≡ false → Found i ms → Found i (x ∷ ms)
    later f r = record {
      row = r.row;
      row_in = inr r.row_in;
      row_id = r.row_id;
      found = rw f r.found;
    }

-- A claim that takes a row: one that the agent may receive, chosen by the scheduler, returned and
-- marked as in flight; no other row is touched.
pub record Claimed (to : String) (strategy : Strategy) (s : Store) : Type 0 where
  pub row : Message
  pub row_in : In row s.messages
  pub receivable : eligible (canonical_name to) (backlog_floor (canonical_name to) s) row ≡ true
  pub scheduled : IsScheduled strategy (candidates (canonical_name to) s) row.id
  pub claimed : claim_next_with_strategy to strategy s ≡ (
    ok (some (with_state State.delivering row)),
    record s { messages = update_rows (has_id row.id) (with_state State.delivering) s.messages },
  )

chosen-Claimed :
    (to : String) (strategy : Strategy) (s : Store) (i : ℕ)
    → IsSound s
    → select_scheduled (candidates (canonical_name to) s) strategy ≡ some i
    → Claimed to strategy s
unfolding candidates claim_next_with_strategy
chosen-Claimed to strategy s i sound e =
    let good = IsScheduled-of_some strategy (candidates (canonical_name to) s) i e in
    let sel =
      In-candidates (eligible (canonical_name to) (backlog_floor (canonical_name to) s)) s.messages
        good.head good.head_in in
    let same = ap (λ (c : Candidate). c.id) sel.shown ∙ good.head_id in
    let f = first_row-Found i s.messages sel.row sel.row_in same in
    let one =
      same_id-eq s.messages sel.row f.row sound.ascends sel.row_in f.row_in (f.row_id ∙ sym same) in
    record {
      row = sel.row;
      row_in = sel.row_in;
      receivable = sel.passes;
      scheduled = rw same good;
      claimed = rw (e, f.found, one, same) refl;
    }

-- In a sound store a claim takes the scheduled row among those that the agent may receive, or there
-- is none; then it returns nothing and the store stays. It never fails.
pub claim_next_with_strategy-Claimed :
    (to : String) (strategy : Strategy) (s : Store)
    → IsSound s
    → Claimed to strategy s
      ⊎ ((candidates (canonical_name to) s ≡ [])
          × (claim_next_with_strategy to strategy s ≡ (ok none, s)))
unfolding claim_next_with_strategy
claim_next_with_strategy-Claimed to strategy s sound =
    elim (Option-cases (select_scheduled (candidates (canonical_name to) s) strategy)) [
      | inl e ↦ inr (nothing (candidates (canonical_name to) s) e, rw e refl)
      | inr (i, e) ↦ inl (chosen-Claimed to strategy s i sound e)
    ]
  where
    nothing : (cs : List Candidate) → select_scheduled cs strategy ≡ none → cs ≡ []
    nothing [] e = refl
    nothing (c ∷ cs) e = let (x, f, g) = select_scheduled-IsScheduled strategy c cs in ground arith
