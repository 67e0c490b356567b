-- ===== src/Store/Thread/Root.antt =====
-- The walk to the root of a thread ends on its fuel, for any table.
use tmux_tell.Common.{
  ℕ, zero, suc, ◌≤◌, ◌<◌, String, Bool, false, Option, none, some, List, [], ◌∷◌, ◌≡◌, ap, ◌∙◌, inl,
  inr, arith, if_cases, not, str_eq, eq_iff, eq_refl, length, count_rows, first_row, In, subst,
  first_row-In, Option-cases,
}
use tmux_tell.Store.Tables.{Message, Store}
use tmux_tell.Store.Insert.{has_public_id}
use tmux_tell.Store.Thread.{
  has_text, Walk, root, missing, cycle, unfinished, parent_of, or_root, walk_up, find_thread_root,
}

-- A row whose public id has not been seen.
abbrev pub unseen : List String → Message → Bool
unseen v m = not (has_text m.public_id v)

pub count_rows-length : (p : Message → Bool) (ms : List Message) → count_rows p ms ≤ length ms
count_rows-length p [] = omega arith
count_rows-length p (m ∷ ms) = let r = count_rows-length p ms in ground arith

-- To see one id more takes no row back.
unseen-le :
    (v : List String) (c : String) (ms : List Message)
    → count_rows (unseen (c ∷ v)) ms ≤ count_rows (unseen v) ms
unseen-le v c [] = omega arith
unseen-le v c (m ∷ ms) = let r = unseen-le v c ms in ground arith

-- To see the id of a row of the table for the first time leaves fewer unseen rows.
pub unseen-lt :
    (v : List String) (ms : List Message) (m : Message)
    → In m ms
    → has_text m.public_id v ≡ false
    → count_rows (unseen (m.public_id ∷ v)) ms < count_rows (unseen v) ms
unseen-lt v [] m i h = absurd i
unseen-lt v (x ∷ ms) m (inl e) h =
    let r = unseen-le v m.public_id ms in
    let k = ap (λ (w : Message). has_text w.public_id v) e in
    let q = ap (λ (w : Message). str_eq w.public_id m.public_id) e in
    ground (arith, eq_refl m.public_id)
unseen-lt v (x ∷ ms) m (inr i) h = let r = unseen-lt v ms m i h in ground arith

-- The walk has ended.
abbrev pub IsEnded : Walk → Type 0
IsEnded (root m) = Unit
IsEnded missing = Unit
IsEnded (cycle i) = Unit
IsEnded unfinished = ⊥

or_root-IsEnded :
    (m : Message) (p : Option String) (rest : String → Walk)
    → ((r : String) → IsEnded (rest r))
    → IsEnded (or_root m p rest)
or_root-IsEnded m none rest h = tt
or_root-IsEnded m (some r) rest h = h r

walk_up-IsEnded :
    (fuel : ℕ) (v : List String) (c : String) (s : Store)
    → count_rows (unseen v) s.messages < fuel
    → IsEnded (walk_up fuel v c s)
unfolding walk_up
walk_up-IsEnded zero v c s l = absurd (omega arith)
walk_up-IsEnded (suc fuel) v c s l =
    if_cases IsEnded (has_text c v) (λ _. tt)
      (λ h. elim (Option-cases (first_row (has_public_id c) s.messages)) [
        | inl e ↦ rw e tt
        | inr (m, e) ↦
            let (i, p) = first_row-In (has_public_id c) s.messages m e in
            let q = (eq_iff m.public_id c).0 p in
            let less = unseen-lt v s.messages m i (ap (λ (w : String). has_text w v) q ∙ h) in
            rw e (
              or_root-IsEnded m (parent_of m) (λ r. walk_up fuel (c ∷ v) r s)
                (λ r. walk_up-IsEnded fuel (c ∷ v) r s (
                  let l2 =
                    subst
                      (λ (w : String).
                        count_rows (unseen (w ∷ v)) s.messages < count_rows (unseen v) s.messages)
                      q less in
                  omega arith)))
      ])

-- From any id the walk finds a root, meets a missing row, or detects a cycle: its fuel, the number of
-- rows and one, does not run out.
pub find_thread_root-IsEnded : (start : String) (s : Store) → IsEnded (find_thread_root start s)
unfolding find_thread_root
find_thread_root-IsEnded start s =
    walk_up-IsEnded (suc (length s.messages)) [] start s
      (let l = count_rows-length (unseen []) s.messages in omega arith)
