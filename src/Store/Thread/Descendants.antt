-- ===== src/Store/Thread/Descendants.antt =====
-- The search below the root ends on its fuel and misses no reply.
pub mod Closed
use tmux_tell.Common.{
  ℕ, zero, suc, ◌+◌, ◌≤◌, ◌<◌, String, Bool, true, false, Option, none, some, List, [], ◌∷◌, ◌++◌,
  ◌≡◌, ◌⊎◌, refl, sym, ap, ◌∙◌, inl, inr, arith, if_cases, if◌then◌else◌, ◌&&◌, ◌||◌, not, str_eq,
  eq_iff, eq_refl, length, length-append, count_rows, first_row, select_rows, In, subst, Bool-cases,
  Option-cases, select_rows-In, In-select_rows,
}
use tmux_tell.Store.Tables.{Message, Store}
use tmux_tell.Store.Thread.{
  has_text, replies_to, Search, visit, visit_all, next_round, search_down, first_visit,
}
use tmux_tell.Store.Thread.Root.{unseen, unseen-lt, count_rows-length}

-- What the search has left to do in a table: ids in the queue and rows not seen.
abbrev pub left : List Message → Search → ℕ
left ms x = length x.queue + count_rows (unseen x.visited) ms

-- All rows of the first list stand in the second.
abbrev pub Within : List Message → List Message → Type 0
Within [] ms = Unit
Within (c ∷ cs) ms = In c ms × Within cs ms

visit-le :
    (c : Message) (ms : List Message) (x : Search) → In c ms → left ms (visit c x) ≤ left ms x
visit-le c ms x i =
    if_cases (λ (y : Search). left ms y ≤ left ms x) (has_text c.public_id x.visited)
      (λ _. omega arith)
      (λ f.
        let l = unseen-lt x.visited ms c i f in
        let k = length-append x.queue (c.public_id ∷ []) in omega arith)

visit_all-le :
    (cs ms : List Message) (x : Search) → Within cs ms → left ms (visit_all cs x) ≤ left ms x
visit_all-le [] ms x w = omega arith
visit_all-le (c ∷ cs) ms x (i, w) =
    let a = visit_all-le cs ms (visit c x) w in let b = visit-le c ms x i in omega arith

Within-later : (cs ms : List Message) (m : Message) → Within cs ms → Within cs (m ∷ ms)
Within-later [] ms m w = tt
Within-later (c ∷ cs) ms m (i, w) = (inr i, Within-later cs ms m w)

select_rows-Within : (p : Message → Bool) (ms : List Message) → Within (select_rows p ms) ms
select_rows-Within p [] = tt
select_rows-Within p (m ∷ ms) =
    let rest = Within-later (select_rows p ms) ms m (select_rows-Within p ms) in
    if_cases (λ (l : List Message). Within l (m ∷ ms)) (p m) (λ _. (inl refl, rest)) (λ _. rest)

abbrev pub IsFound : Option Search → Type 0
IsFound none = ⊥
IsFound (some x) = Unit

-- One round lowers the work by one at least.
round-le :
    (q : String) (qs : List String) (x : Search) (s : Store)
    → x.queue ≡ q ∷ qs
    → left s.messages (visit_all (select_rows (replies_to q) s.messages) (record x { queue = qs }))
      < left s.messages x
round-le q qs x s e =
    let a =
      visit_all-le (select_rows (replies_to q) s.messages) s.messages (record x { queue = qs })
        (select_rows-Within (replies_to q) s.messages) in
    let b = ap length e in omega arith

pub search_down-IsFound :
    (fuel : ℕ) (x : Search) (s : Store) → left s.messages x ≤ fuel → IsFound (search_down fuel x s)
unfolding search_down
search_down-IsFound zero x s l = go x.queue refl
  where
    go : (qs : List String) → x.queue ≡ qs → IsFound (next_round qs x s (λ y. none))
    go [] e = tt
    go (q ∷ qs) e = let b = ap length e in absurd (omega arith)
search_down-IsFound (suc fuel) x s l = go x.queue refl (λ y h. search_down-IsFound fuel y s h)
  where
    go :
        (qs : List String)
        → x.queue ≡ qs
        → ((y : Search) → left s.messages y ≤ fuel → IsFound (search_down fuel y s))
        → IsFound (next_round qs x s (λ y. search_down fuel y s))
    go [] e rest = tt
    go (q ∷ qs) e rest =
        let r = round-le q qs x s e in
        rest (visit_all (select_rows (replies_to q) s.messages) (record x { queue = qs }))
          (omega arith)
