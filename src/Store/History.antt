-- ===== src/Store/History.antt =====
-- A run of the store: the writes of messages.go, reset.go and `SetBacklogEpoch`, one after another,
-- each a transaction under the one writer that SQLite admits.
pub mod Rows
pub mod Life
use tmux_tell.Common.{ℕ, String, Bool, Option, List, [], ◌∷◌}
use tmux_tell.Store.Schedule.{Strategy}
use tmux_tell.Store.Tables.{State, Reason, Store}
use tmux_tell.Store.Insert.{InsertParams}
use tmux_tell.Store.Insert.Operations.{insert_message, insert_notice, insert_message_pair}
use tmux_tell.Store.Claim.{claim_next_with_strategy, recover_delivering}
use tmux_tell.Store.Deliver.{
  mark_delivered, mark_delivered_in_input_box, mark_failed, promote_deferred,
  mark_verified_by_dedupe,
}
use tmux_tell.Store.Backlog.{
  set_backlog_epoch, mark_acknowledged, mark_acknowledged_batch, ack_stale_queued,
}
use tmux_tell.Store.Reap.{reap_undeliverable}
use tmux_tell.Store.Reset.{
  delete_messages, delete_messages_before, delete_stranded_drafts_before, delete_agent,
}

-- The writes that delete no message.
pub data Call : Type 0 where
  message notice : InsertParams → Call
  pair : InsertParams → InsertParams → Bool → Call
  claim : String → Strategy → Call
  recover : String → Call
  delivered in_input_box : String → Call
  failed : String → Reason → Call
  promote : String → String → Call
  verified : String → Call
  set_epoch : String → ℕ → Call
  acknowledge : String → String → Call
  acknowledge_batch : String → ℕ → Call
  acknowledge_stale : String → Call
  reap : String → ℕ → Reason → Call
  remove_agent : String → Call

-- The writes that delete messages.
pub data Sweep : Type 0 where
  in_states : String → List State → Sweep
  expired : String → Option ℕ → List State → Sweep
  expired_drafts : String → Option ℕ → Sweep

module _ (draws : ℕ → Option String) where
  unfoldable pub perform : ℕ → Call → Store → Store
  perform now (Call.message p) s = (insert_message draws now p s).1
  perform now (Call.notice p) s = (insert_notice draws now p s).1
  perform now (Call.pair p q link) s = (insert_message_pair draws now p q link s).1
  perform now (Call.claim to strategy) s = (claim_next_with_strategy to strategy s).1
  perform now (Call.recover to) s = (recover_delivering to s).1
  perform now (Call.delivered i) s = (mark_delivered i now s).1
  perform now (Call.in_input_box i) s = (mark_delivered_in_input_box i now s).1
  perform now (Call.failed i reason) s = (mark_failed i reason now s).1
  perform now (Call.promote to trigger) s = (promote_deferred to trigger s).1
  perform now (Call.verified i) s = (mark_verified_by_dedupe i s).1
  perform now (Call.set_epoch name floor) s = (set_backlog_epoch name floor s).1
  perform now (Call.acknowledge to i) s = (mark_acknowledged to i s).1
  perform now (Call.acknowledge_batch to epoch) s = (mark_acknowledged_batch to epoch s).1
  perform now (Call.acknowledge_stale to) s = (ack_stale_queued to s).1
  perform now (Call.reap agent cutoff reason) s = (reap_undeliverable agent cutoff reason now s).1
  perform now (Call.remove_agent name) s = (delete_agent name s).1

  -- A number of calls, each at its time.
  unfoldable pub run : List (ℕ × Call) → Store → Store
  unfolding perform
  run [] s = s
  run ((now, call) ∷ calls) s = run calls (perform now call s)

unfoldable pub sweep : Sweep → Store → Store
sweep (Sweep.in_states to states) s = (delete_messages to states s).1
sweep (Sweep.expired to cutoff states) s = (delete_messages_before to cutoff states s).1
sweep (Sweep.expired_drafts to cutoff) s = (delete_stranded_drafts_before to cutoff s).1
