-- ===== src/Mailman/Round/Claims.antt =====
-- The message that a claim takes is the only one in flight, if none was.
use tmux_tell.Common.{
  ℕ, ◌<◌, ◌≤◌, ◌+◌, String, Bool, true, Option, none, some, List, [], ◌∷◌, map, ◌≡◌, refl, sym, ap,
  ◌∙◌, inl, inr, Bool-cases, arith, ==_iff, ◌==◌, In, All, count_rows, count_rows-pos, update_rows,
  subst,
}
use tmux_tell.Names.{canonical_name}
use tmux_tell.Store.Schedule.{Strategy}
use tmux_tell.Store.Tables.{State, Message, Store, Result, ok, err}
use tmux_tell.Store.Integrity.{Key, key, IsSound, Ascends}
use tmux_tell.Store.Claim.{has_id, with_state, delivering_to, claim_next_with_strategy}
use tmux_tell.Store.Claim.Choice.{Claimed, claim_next_with_strategy-Claimed}
use tmux_tell.Mailman.Outcome.Landed.{IsClaimed}

module _ {A : Type 0} where
  In-update_rows :
      (p : A → Bool) (f : A → A) (xs : List A) (x : A)
      → In x xs
      → p x ≡ true
      → In (f x) (update_rows p f xs)
  In-update_rows p f [] x i h = absurd i
  In-update_rows p f (y ∷ ys) x (inl e) h = let a = sym (ap p e) ∙ h in inl (ap f e ∙ rw a refl)
  In-update_rows p f (y ∷ ys) x (inr i) h = inr (In-update_rows p f ys x i h)

  -- An UPDATE adds to a selection no more rows than it takes.
  count_rows-update_rows :
      (p q : A → Bool) (f : A → A) (xs : List A)
      → count_rows q (update_rows p f xs) ≤ count_rows q xs + count_rows p xs
  count_rows-update_rows p q f [] = omega arith
  count_rows-update_rows p q f (x ∷ xs) =
      let r = count_rows-update_rows p q f xs in
      ground (arith, Bool-cases (q (f x)), Bool-cases (q x), Bool-cases (p x))

has_id-above :
    (i : ℕ) (ms : List Message)
    → All (λ (k : Key). i < k.id) (map key ms)
    → count_rows (has_id i) ms ≡ 0
has_id-above i [] a = refl
has_id-above i (m ∷ ms) (l, a) = let r = has_id-above i ms a in ground (arith, ==_iff m.id i)

-- An id is the id of one row at most.
count_rows-has_id :
    (i : ℕ) (ms : List Message) → Ascends (map key ms) → count_rows (has_id i) ms ≤ 1
count_rows-has_id i [] a = omega arith
count_rows-has_id i (m ∷ ms) (a, up) = elim (Bool-cases (m.id == i)) [
  | inl t ↦
      let e = (==_iff m.id i).0 t in
      let z = has_id-above i ms (subst (λ (n : ℕ). All (λ (k : Key). n < k.id) (map key ms)) e a) in
      ground arith
  | inr f ↦ let r = count_rows-has_id i ms up in ground arith
]

-- Where no message of the agent is in flight, the one that a claim takes is the only one.
taken-IsClaimed :
    (to : String) (strategy : Strategy) (s : Store) (c : Claimed to strategy s)
    → IsSound s
    → count_rows (delivering_to (canonical_name to)) s.messages ≡ 0
    → IsClaimed (canonical_name to) (with_state State.delivering c.row) (record s {
      messages = update_rows (has_id c.row.id) (with_state State.delivering) s.messages;
    })
taken-IsClaimed to strategy s c sound none_left =
    let q = delivering_to (canonical_name to) in
    let p = has_id c.row.id in
    let i =
      In-update_rows p (with_state State.delivering) s.messages c.row c.row_in
        ((==_iff c.row.id c.row.id).1 refl) in
    let r = c.receivable in
    let d : q (with_state State.delivering c.row) ≡ true = ground arith in
    let low = count_rows-pos q (update_rows p (with_state State.delivering) s.messages) _ i d in
    let high = count_rows-update_rows p q (with_state State.delivering) s.messages in
    let one = count_rows-has_id c.row.id s.messages sound.ascends in (i, d, omega arith)

abbrev taken_row : Message → Result (Option Message) × Store → Message
taken_row m (ok (some n), s) = n
taken_row m (ok none, s) = m
taken_row m (err e, s) = m

pub claim-IsClaimed :
    (to : String) (strategy : Strategy) (s t : Store) (m : Message)
    → IsSound s
    → count_rows (delivering_to (canonical_name to)) s.messages ≡ 0
    → claim_next_with_strategy to strategy s ≡ (ok (some m), t)
    → IsClaimed (canonical_name to) m t
claim-IsClaimed to strategy s t m sound none_left e =
    elim (claim_next_with_strategy-Claimed to strategy s sound) [
      | inl c ↦
          let q = sym c.claimed ∙ e in
          subst (λ (x : Message × Store). IsClaimed (canonical_name to) x.0 x.1)
            (ap (λ (x : Result (Option Message) × Store). (taken_row m x, x.1)) q)
            (taken-IsClaimed to strategy s c sound none_left)
      | inr (z, n) ↦ absurd (cc (sym n ∙ e))
    ]

-- A claim that takes nothing leaves the store.
pub idle-eq :
    (to : String) (strategy : Strategy) (s t : Store) (r : Result (Option Message))
    → IsSound s
    → claim_next_with_strategy to strategy s ≡ (r, t)
    → ((m : Message) → ¬ (ok (some m) ≡ r))
    → t ≡ s
idle-eq to strategy s t r sound e other =
    elim (claim_next_with_strategy-Claimed to strategy s sound) [
      | inl c ↦ absurd (
          other (with_state State.delivering c.row)
            (ap (λ (x : Result (Option Message) × Store). x.0) (sym c.claimed ∙ e)))
      | inr (z, n) ↦ ap (λ (x : Result (Option Message) × Store). x.1) (sym e ∙ n)
    ]
