-- ===== src/Store/Insert/Outcomes.antt =====
-- What the retry loop returns: a new row under a fresh public id, or the tables as they were.
use tmux_tell.Common.{
  ℕ, zero, suc, String, true, false, Option, none, some, ◌≡◌, refl, ◌⊎◌, inl, inr, subst, if_cases,
  Option-cases, any_row,
}
use tmux_tell.Store.Tables.{Message, Store, Result, ok, err, CapError}
use tmux_tell.Store.Insert.{InsertParams, InsertResult, has_public_id, queue_depth}
use tmux_tell.Store.Insert.Attempts.{
  Outcome, unique_violation, foreign_key_violation, inserted, append_row, resolves, exec_insert,
  insert_tries, drew, with_depth, as_handle, queued_row, refused_row, insert_one_in_tx,
  insert_refused_row, public_id_retry_attempts,
}

-- The store with another count of public ids drawn.
abbrev pub redrawn : Store → ℕ → Store
redrawn s k = record s { drawn = k }

pub record Fresh (m : Message) (s : Store) : Type 0 where
  pub unique : any_row (has_public_id m.public_id) s.messages ≡ false
  pub resolved : resolves m.reply_to m.public_id s.messages ≡ true

abbrev pub Tried : (String → Message) → Store → Result String × Store → Type 0
Tried row s (ok i, t) = (k : ℕ) × (t ≡ append_row (row i) (redrawn s k)) × Fresh (row i) s
Tried row s (err e, t) = (k : ℕ) × (t ≡ redrawn s k)

-- What one INSERT does.
abbrev Executed : Message → Store → Outcome → Type 0
Executed m s unique_violation = Unit
Executed m s foreign_key_violation = Unit
Executed m s (inserted t) = (t ≡ append_row m s) × Fresh m s

exec_insert-Executed : (m : Message) (s : Store) → Executed m s (exec_insert m s)
unfolding exec_insert
exec_insert-Executed m s =
    if_cases (Executed m s) (any_row (has_public_id m.public_id) s.messages) (λ _. tt)
      λ f.
        if_cases (Executed m s) (resolves m.reply_to m.public_id s.messages)
          (λ t. (refl, record { unique = f; resolved = t })) (λ _. tt)

Outcome-cases :
    (o : Outcome)
    → (o ≡ unique_violation) ⊎ (o ≡ foreign_key_violation) ⊎ ((t : Store) × (o ≡ inserted t))
Outcome-cases unique_violation = inl refl
Outcome-cases foreign_key_violation = inr (inl refl)
Outcome-cases (inserted t) = inr (inr (t, refl))

-- A later start of the loop: only the count of public ids differs.
Tried-redrawn :
    (row : String → Message) (s : Store) (k : ℕ) (r : Result String × Store)
    → Tried row (redrawn s k) r
    → Tried row s r
Tried-redrawn row s k (ok i, t) (j, e, f) =
    (j, e, record { unique = f.unique; resolved = f.resolved })
Tried-redrawn row s k (err e, t) h = h

module _ (draws : ℕ → Option String) where
  pub insert_tries-Tried :
      (n : ℕ) (row : String → Message) (s : Store) → Tried row s (insert_tries draws n row s)
  unfolding insert_tries
  insert_tries-Tried zero row s = (s.drawn, refl)
  insert_tries-Tried (suc n) row s = elim (Option-cases (draws s.drawn)) [
    | inl e ↦ rw (e, insert_tries) (suc s.drawn, refl)
    | inr (c, e) ↦
        rw (e, insert_tries)
          (elim (Outcome-cases (exec_insert (row c) (drew draws s))) [
            | inl u ↦
                rw (u, insert_tries)
                  (Tried-redrawn row s (suc s.drawn) (insert_tries draws n row (drew draws s))
                    (insert_tries-Tried n row (drew draws s)))
            | inr (inl f) ↦ rw (f, insert_tries) (suc s.drawn, refl)
            | inr (inr (t, i)) ↦
                rw (i, insert_tries)
                  (let x : Executed (row c) (drew draws s) (inserted t) =
                      subst (Executed (row c) (drew draws s)) i
                        (exec_insert-Executed (row c) (drew draws s)) in
                    (suc s.drawn, x.0, record { unique = x.1.unique; resolved = x.1.resolved }))
          ])
  ]

  -- What `insertOneInTx` returns.
  abbrev pub Placed : InsertParams → ℕ → Store → Result InsertResult × Store → Type 0
  Placed p now s (ok r, t) =
      ((k : ℕ) × (t ≡ append_row (queued_row p now r.public_id) (redrawn s k)))
      × Fresh (queued_row p now r.public_id) s
      × (r.queued ≡ queue_depth p.to_agent t)
  Placed p now s (err e, t) = (k : ℕ) × (t ≡ redrawn s k)

  with_depth-Placed :
      (p : InsertParams) (now : ℕ) (s : Store) (r : Result String × Store)
      → Tried (queued_row p now) s r
      → Placed p now s (with_depth draws p.to_agent r)
  with_depth-Placed p now s (ok i, t) (k, e, f) = ((k, e), f, refl)
  with_depth-Placed p now s (err e, t) h = h

  pub insert_one_in_tx-Placed :
      (p : InsertParams) (now : ℕ) (s : Store) → Placed p now s (insert_one_in_tx draws p now s)
  unfolding insert_one_in_tx
  insert_one_in_tx-Placed p now s =
      with_depth-Placed p now s _ (insert_tries-Tried public_id_retry_attempts (queued_row p now) s)

  -- What `insertRefusedRow` leaves.
  abbrev pub Recorded : InsertParams → CapError → ℕ → Store → Option String × Store → Type 0
  Recorded p e now s (none, t) = (k : ℕ) × (t ≡ redrawn s k)
  Recorded p e now s (some i, t) =
      ((k : ℕ) × (t ≡ append_row (refused_row p e now i) (redrawn s k)))
      × Fresh (refused_row p e now i) s

  as_handle-Recorded :
      (p : InsertParams) (e : CapError) (now : ℕ) (s : Store) (r : Result String × Store)
      → Tried (refused_row p e now) s r
      → Recorded p e now s (as_handle draws r)
  as_handle-Recorded p e now s (ok i, t) (k, q, f) = ((k, q), f)
  as_handle-Recorded p e now s (err x, t) h = h

  pub insert_refused_row-Recorded :
      (p : InsertParams) (e : CapError) (now : ℕ) (s : Store)
      → Recorded p e now s (insert_refused_row draws p e now s)
  unfolding insert_refused_row
  insert_refused_row-Recorded p e now s =
      as_handle-Recorded p e now s _
        (insert_tries-Tried public_id_retry_attempts (refused_row p e now) s)
