-- ===== src/Store/Insert/Notices.antt =====
-- What `InsertNotice` leaves: one queued row at the end of the table, or the table as it was.
use tmux_tell.Common.{
  ℕ, String, Bool, false, Option, [], ◌∷◌, ◌++◌, ◌≡◌, refl, ap, arith, Option-cases, inl, inr,
  count_rows, count_rows-append,
}
use tmux_tell.Store.Tables.{Message, Store, Result, ok, err}
use tmux_tell.Store.Insert.{
  InsertParams, InsertResult, canonical_params, uncapped, validate_insert_params, validate_reply_to,
}
use tmux_tell.Store.Claim.{delivering_to}
use tmux_tell.Store.Insert.Attempts.{queued_row, insert_one_in_tx}
use tmux_tell.Store.Insert.Operations.{ring, commit_one, first_error, insert_notice}
use tmux_tell.Store.Insert.Outcomes.{Placed, insert_one_in_tx-Placed}

-- The row of a notice.
abbrev pub notice_row : InsertParams → ℕ → String → Store → Message
notice_row params now i s = record (queued_row (uncapped (canonical_params params)) now i) {
  id = s.next_id;
}

abbrev pub Noticed : InsertParams → ℕ → Store → Result InsertResult × Store → Type 0
Noticed params now s (ok r, t) =
    (t.messages ≡ s.messages ++ notice_row params now r.public_id s ∷ []) × (t.agents ≡ s.agents)
Noticed params now s (err e, t) = (t.messages ≡ s.messages) × (t.agents ≡ s.agents)

module _ (draws : ℕ → Option String) (now : ℕ) where
  commit_one-Noticed :
      (params : InsertParams) (to : String) (s : Store) (x : Result InsertResult × Store)
      → Placed draws (uncapped (canonical_params params)) now s x
      → Noticed params now s (commit_one (ring to) s x)
  unfolding commit_one
  commit_one-Noticed params to s (ok r, t) ((k, e), f, d) =
      (ap (λ (w : Store). w.messages) e, ap (λ (w : Store). w.agents) e)
  commit_one-Noticed params to s (err e, t) h = (refl, refl)

  pub insert_notice-Noticed :
      (params : InsertParams) (s : Store) → Noticed params now s (insert_notice draws now params s)
  unfolding insert_notice
  insert_notice-Noticed params s =
      let p = canonical_params params in
      elim (Option-cases
        (first_error (validate_insert_params p) (validate_reply_to p.reply_to s))) [
          | inl fine ↦
              rw (fine, insert_notice)
                (commit_one-Noticed params p.to_agent s (insert_one_in_tx draws (uncapped p) now s)
                  (insert_one_in_tx-Placed draws (uncapped p) now s))
          | inr (e, bad) ↦ rw (bad, insert_notice) (refl, refl)
        ]

notice_row-in_flight :
    (to : String) (params : InsertParams) (now : ℕ) (i : String) (s : Store)
    → delivering_to to (notice_row params now i s) ≡ false
unfolding queued_row
notice_row-in_flight to params now i s = ground arith

Noticed-count :
    (q : Message → Bool) (params : InsertParams) (now : ℕ) (s : Store)
    (x : Result InsertResult × Store)
    → ((i : String) → q (notice_row params now i s) ≡ false)
    → Noticed params now s x
    → count_rows q x.1.messages ≡ count_rows q s.messages
Noticed-count q params now s (ok r, t) out (e, a) =
    let n = out r.public_id in
    let z : count_rows q (notice_row params now r.public_id s ∷ []) ≡ 0 = rw n refl in
    rw e
      (omega (arith, count_rows-append q s.messages (notice_row params now r.public_id s ∷ []), z))
Noticed-count q params now s (err x, t) out (e, a) = ap (count_rows q) e

-- A notice is queued or deferred, so it changes no count of rows in flight.
pub insert_notice-in_flight :
    (draws : ℕ → Option String) (now : ℕ) (to : String) (params : InsertParams) (s : Store)
    → count_rows (delivering_to to) (insert_notice draws now params s).1.messages
      ≡ count_rows (delivering_to to) s.messages
insert_notice-in_flight draws now to params s =
    Noticed-count (delivering_to to) params now s (insert_notice draws now params s)
      (λ i. notice_row-in_flight to params now i s) (insert_notice-Noticed draws now params s)
