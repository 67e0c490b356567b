-- ===== src/Store/Insert/Attempts.antt =====
-- internal/store/messages.go: `insertOneInTx` and `insertRefusedRow`, with the retry on a public id
-- that is taken. An INSERT is refused by the UNIQUE constraint on `public_id` or by the foreign key
-- on `reply_to`; no other failure of the driver is modelled.
use tmux_tell.Common.{
  ℕ, zero, suc, String, Bool, true, false, Option, none, some, List, [], ◌∷◌, ◌++◌, ◌==◌, str_eq,
  if◌then◌else◌, any_row,
}
use tmux_tell.Store.Schedule.Levels.{priority_normal}
use tmux_tell.Store.Tables.{
  State, CapError, Reason, Message, Store, entropy_failed, public_ids_exhausted, foreign_key,
  Result, ok, err,
}
use tmux_tell.Store.Insert.{
  InsertParams, InsertResult, nullable, kind_or_message, has_public_id, queue_depth,
}

pub data Outcome : Type 0 where
  unique_violation foreign_key_violation : Outcome
  inserted : Store → Outcome

abbrev pub append_row : Message → Store → Store
append_row m s = record s {
  messages = s.messages ++ record m { id = s.next_id } ∷ [];
  next_id = suc s.next_id;
}

-- The foreign key: `reply_to` is NULL or the public id of a row, the new one included.
abbrev pub resolves : Option String → String → List Message → Bool
resolves none own ms = true
resolves (some r) own ms = if str_eq own r then true else any_row (has_public_id r) ms

unfoldable pub exec_insert : Message → Store → Outcome
exec_insert m s =
    if any_row (has_public_id m.public_id) s.messages
    then unique_violation
    else if resolves m.reply_to m.public_id s.messages
    then inserted (append_row m s)
    else foreign_key_violation

abbrev pub public_id_retry_attempts : ℕ
public_id_retry_attempts = 20

-- The row that `insertOneInTx` writes. Its id is given by the table.
unfoldable pub queued_row : InsertParams → ℕ → String → Message
queued_row p now candidate = record {
  id = 0;
  public_id = candidate;
  from_agent = p.from_agent;
  to_agent = p.to_agent;
  reply_to = nullable p.reply_to;
  body = p.body;
  kind = kind_or_message p.kind;
  no_reply_expected = p.no_reply_expected;
  quick = p.quick;
  state = if str_eq p.deliver_after "" then State.queued else State.deferred;
  created_at = now;
  delivered_at = none;
  error = none;
  replay_of = nullable p.replay_of;
  replay_of_at = nullable p.replay_of_at;
  deliver_after = nullable p.deliver_after;
  verified = none;
  expects_reply = p.expects_reply;
  priority = if p.priority == 0 then priority_normal else p.priority;
  force_rate_limited = p.force_rate_limited;
}

-- The row that `insertRefusedRow` writes: the columns that it does not name have their defaults.
unfoldable pub refused_row : InsertParams → CapError → ℕ → String → Message
refused_row p e now candidate = record {
  id = 0;
  public_id = candidate;
  from_agent = p.from_agent;
  to_agent = p.to_agent;
  reply_to = none;
  body = p.body;
  kind = kind_or_message p.kind;
  no_reply_expected = false;
  quick = false;
  state = State.refused;
  created_at = now;
  delivered_at = none;
  error = some (Reason.cap e);
  replay_of = none;
  replay_of_at = none;
  deliver_after = none;
  verified = none;
  expects_reply = false;
  priority = priority_normal;
  force_rate_limited = false;
}

module _ (draws : ℕ → Option String) where
  abbrev pub drew : Store → Store
  drew s = record s { drawn = suc s.drawn }

  -- The retry loop: `n` attempts, each with the next public id.
  unfoldable pub insert_tries : ℕ → (String → Message) → Store → Result String × Store
  unfolding exec_insert
  insert_tries zero row s = (err public_ids_exhausted, s)
  insert_tries (suc n) row s = elim (draws s.drawn) [
    | none ↦ (err entropy_failed, drew s)
    | some candidate ↦ elim (exec_insert (row candidate) (drew s)) [
      | unique_violation ↦ insert_tries n row (drew s)
      | foreign_key_violation ↦ (err foreign_key, drew s)
      | inserted s' ↦ (ok candidate, s')
    ]
  ]

  abbrev pub with_depth : String → Result String × Store → Result InsertResult × Store
  with_depth to (err e, s) = (err e, s)
  with_depth to (ok i, s) = (ok (record { public_id = i; queued = queue_depth to s }), s)

  unfoldable pub insert_one_in_tx : InsertParams → ℕ → Store → Result InsertResult × Store
  unfolding insert_tries
  insert_one_in_tx p now s =
      with_depth p.to_agent (insert_tries public_id_retry_attempts (queued_row p now) s)

  abbrev pub as_handle : Result String × Store → Option String × Store
  as_handle (err e, s) = (none, s)
  as_handle (ok i, s) = (some i, s)

  -- `none` is the empty string of the source: no durable record this time.
  unfoldable pub insert_refused_row : InsertParams → CapError → ℕ → Store → Option String × Store
  unfolding insert_tries
  insert_refused_row p e now s =
      as_handle (insert_tries public_id_retry_attempts (refused_row p e now) s)
