-- ===== src/Store/Insert/Refused.antt =====
-- What is left of a message that is not queued: a deferred row, or the record of a cap rejection.
use tmux_tell.Common.{
  ℕ, String, false, Option, none, some, [], ◌∷◌, ◌++◌, ◌≡◌, refl, ap, ◌∙◌, arith, str_eq, eq_iff,
  ◌≢◌, subst,
}
use tmux_tell.Store.Tables.{State, Reason, Message, Store, cap_rejected, CapError, ok, err}
use tmux_tell.Store.Insert.{
  InsertParams, InsertResult, canonical_params, uncapped, queue_depth, queued_to, check_caps_in_tx,
  validate_insert_params, validate_reply_to,
}
use tmux_tell.Store.Insert.Attempts.{queued_row, refused_row, insert_refused_row}
use tmux_tell.Store.Insert.Operations.{uncapped_if_deferred, insert_checked, insert_message}
use tmux_tell.Store.Insert.Outcomes.{redrawn, Recorded, insert_refused_row-Recorded}
use tmux_tell.Store.Insert.Caps.{
  Inserted, insert_message-ok, depth_after, queue_depth-append_row, queue_depth-redrawn,
}

deferred_row-not-queued :
    (now : ℕ) (p : InsertParams) (to i : String)
    → str_eq p.deliver_after "" ≡ false
    → queued_to to (queued_row p now i) ≡ false
unfolding queued_row
deferred_row-not-queued now p to i later = ground arith

deferred_row :
    (p : InsertParams) (now : ℕ) (i : String)
    → str_eq p.deliver_after "" ≡ false
    → ((queued_row p now i).state ≡ State.deferred)
      × ((queued_row p now i).deliver_after ≡ some p.deliver_after)
unfolding queued_row
deferred_row p now i later = (rw later, rw later)

-- A deferred insert that is accepted changes no queue and rings no doorbell, whatever caps it named:
-- the row waits in state `deferred` until its trigger promotes it.
pub insert_message-deferred :
    (draws : ℕ → Option String) (now : ℕ) (params : InsertParams) (s : Store) (r : InsertResult)
    (t : Store)
    → params.deliver_after ≢ ""
    → insert_message draws now params s ≡ (ok r, t)
    → ((to : String) → queue_depth to t ≡ queue_depth to s)
      × (t.rings ≡ s.rings)
      × ((m : Message) × (t.messages ≡ s.messages ++ m ∷ [])
          × (m.state ≡ State.deferred)
          × (m.deliver_after ≡ some params.deliver_after))
insert_message-deferred draws now params s r t later h =
    let p = canonical_params params in
    let nonempty : str_eq p.deliver_after "" ≡ false = ground (arith, eq_iff p.deliver_after "") in
    let same : uncapped_if_deferred p ≡ uncapped p = rw nonempty in
    let i = subst (λ q. Inserted now q s r t) same (insert_message-ok draws now params s r t h) in
    let q = uncapped p in
    let row = queued_row q now r.public_id in
    (
      λ to.
          depth_after now q s r t to i
          ∙ rw (deferred_row-not-queued now q to r.public_id nonempty) (omega arith),
      ap (λ (u : Store). u.rings) i.store_eq ∙ rw nonempty refl,
      (
        record row { id = s.next_id },
        ap (λ (u : Store). u.messages) i.store_eq ∙ rw nonempty refl,
        (deferred_row q now r.public_id nonempty).0,
        (deferred_row q now r.public_id nonempty).1,
      ),
    )

refused_row-not-queued :
    (p : InsertParams) (e : CapError) (now : ℕ) (to i : String)
    → queued_to to (refused_row p e now i) ≡ false
unfolding refused_row
refused_row-not-queued p e now to i = ground arith

-- The record of a rejection: in state `refused` and never delivered, under the handle, with the
-- addresses and the text of the message, the cap error as its reason, and nothing to trigger it.
pub record RecordsRefusal (p : InsertParams) (e : CapError) (now next : ℕ) (handle : String)
    (m : Message) : Type 0 where
  pub id : m.id ≡ next
  pub public_id : m.public_id ≡ handle
  pub refused : m.state ≡ State.refused
  pub from_agent : m.from_agent ≡ p.from_agent
  pub to_agent : m.to_agent ≡ p.to_agent
  pub body : m.body ≡ p.body
  pub reason : m.error ≡ some (Reason.cap e)
  pub created : m.created_at ≡ now
  pub undelivered : m.delivered_at ≡ none
  pub no_reply : m.reply_to ≡ none
  pub no_trigger : m.deliver_after ≡ none

-- Under a handle, one more row at the end of the table; without one, the table as it was.
abbrev pub LeftRows : InsertParams → CapError → ℕ → Store → Option String → Store → Type 0
LeftRows p e now s none t = t.messages ≡ s.messages
LeftRows p e now s (some i) t =
    (m : Message) × (t.messages ≡ s.messages ++ m ∷ []) × RecordsRefusal p e now s.next_id i m

refused_row-RecordsRefusal :
    (p : InsertParams) (e : CapError) (now next : ℕ) (i : String)
    → RecordsRefusal p e now next i (record (refused_row p e now i) { id = next })
unfolding refused_row
refused_row-RecordsRefusal p e now next i = record {
  id = refl;
  public_id = refl;
  refused = refl;
  from_agent = refl;
  to_agent = refl;
  body = refl;
  reason = refl;
  created = refl;
  undelivered = refl;
  no_reply = refl;
  no_trigger = refl;
}

-- What a rejected insert leaves.
pub record LeavesRecord (p : InsertParams) (e : CapError) (now : ℕ) (s : Store)
    (handle : Option String) (t : Store) : Type 0 where
  pub depths : (to : String) → queue_depth to t ≡ queue_depth to s
  pub silent : t.rings ≡ s.rings
  pub rows : LeftRows p e now s handle t

pub Recorded-LeavesRecord :
    (draws : ℕ → Option String) (now : ℕ) (p : InsertParams) (e : CapError) (s : Store)
    (h : Option String) (t : Store)
    → Recorded draws p e now s (h, t)
    → LeavesRecord p e now s h t
Recorded-LeavesRecord draws now p e s none t (k, q) =
    rw q (record { depths = λ to. queue_depth-redrawn to s k; silent = refl; rows = refl })
Recorded-LeavesRecord draws now p e s (some i) t ((k, q), f) = rw q (record {
  depths = λ to.
      queue_depth-append_row to (refused_row p e now i) (redrawn s k)
      ∙ rw (refused_row-not-queued p e now to i) (omega (arith, queue_depth-redrawn to s k));
  silent = refl;
  rows = (
    record (refused_row p e now i) { id = s.next_id },
    refl,
    refused_row-RecordsRefusal p e now s.next_id i,
  );
})

-- A message that passes the checks but not the caps is rejected with the cap error; every queue keeps
-- its length and no doorbell rings. Under the handle that the caller gets, one row was added at the end
-- of the table: it has the addresses and the text of the message, the cap error as its reason and the
-- state `refused`. Without a handle no row was written.
pub insert_message-rejected :
    (draws : ℕ → Option String) (now : ℕ) (params : InsertParams) (s : Store) (e : CapError)
    → let p = uncapped_if_deferred (canonical_params params) in
      validate_insert_params (canonical_params params) ≡ none
      → validate_reply_to params.reply_to s ≡ none
      → check_caps_in_tx p 1 s ≡ some e
      → (handle : Option String) × (t : Store) × (insert_message draws now params s
          ≡ (err (cap_rejected handle e), t))
        × LeavesRecord p e now s handle t
unfolding insert_message insert_checked
insert_message-rejected draws now params s e valid replies over =
    let p = uncapped_if_deferred (canonical_params params) in
    let x = insert_refused_row draws p e now s in
    (
      x.0,
      x.1,
      rw (insert_message, valid, replies, over, insert_checked) refl,
      Recorded-LeavesRecord draws now p e s x.0 x.1 (insert_refused_row-Recorded draws p e now s),
    )
