-- ===== src/Store/Backlog.antt =====
-- internal/store/messages.go: the backlog of an agent that registers again (`QueuedBacklogFloor`,
-- with `SetBacklogEpoch` of agents.go), the acknowledgements (`MarkAcknowledged`,
-- `MarkAcknowledgedBatch`), and the orphans of a delivery-mode flip (`CountStaleQueued`,
-- `AckStaleQueued`).
pub mod Floor
pub mod Acknowledge
use tmux_tell.Common.{
  ℕ, zero, suc, ◌-◌, String, Bool, true, false, Option, none, some, List, [], ◌∷◌, ◌&&◌, ◌||◌, not,
  leb, ltb, ◌==◌, str_eq, if◌then◌else◌, update_rows, count_rows, select_rows,
}
use mathlib.Core.List.{reverse}
use tmux_tell.Names.{canonical_name}
use tmux_tell.Store.Tables.{
  State, Message, Agent, Store, Error, not_found, Result, ok, err, is_state,
}
use tmux_tell.Store.Insert.{has_public_id, queued_to, queue_depth, named}
use tmux_tell.Store.Claim.{with_state, is_some}

abbrev pub nth_or_zero : List Message → ℕ → ℕ
nth_or_zero [] n = 0
nth_or_zero (m ∷ ms) zero = m.id
nth_or_zero (m ∷ ms) (suc n) = nth_or_zero ms n

-- Floor and number of rows skipped. `ORDER BY id DESC LIMIT 1 OFFSET keep_newest`: the table is in
-- the order of ids, and the depth says that the row is there.
unfoldable pub queued_backlog_floor : String → ℕ → Store → ℕ × ℕ
unfolding queue_depth
queued_backlog_floor to keep_newest s =
    let agent = canonical_name to in
    let depth = queue_depth agent s in
    if depth == 0 || leb depth keep_newest then (0, 0) else (
      nth_or_zero (reverse (select_rows (queued_to agent) s.messages)) keep_newest,
      depth - keep_newest,
    )

unfoldable pub set_backlog_epoch : String → ℕ → Store → Result (Unit {0}) × Store
set_backlog_epoch name floor s =
    let mine = named (canonical_name name) in
    if count_rows mine s.agents == 0 then (err not_found, s) else (
      ok tt,
      record s {
        agents = update_rows mine (λ a. record a { backlog_epoch = some floor }) s.agents;
      },
    )

abbrev pub ackable : String → String → Message → Bool
ackable to i m = has_public_id i m && queued_to to m

abbrev pub acknowledged_as : String → String → Message → Bool
acknowledged_as to i m = has_public_id i m && str_eq m.to_agent to && is_state State.acknowledged m

unfoldable pub mark_acknowledged : String → String → Store → Result (Unit {0}) × Store
mark_acknowledged to i s =
    let agent = canonical_name to in
    if ltb 0 (count_rows (ackable agent i) s.messages)
    then (
      ok tt,
      record s {
        messages = update_rows (ackable agent i) (with_state State.acknowledged) s.messages;
      },
    )
    else if ltb 0 (count_rows (acknowledged_as agent i) s.messages)
    then (ok tt, s)
    else (err not_found, s)

abbrev pub residue : String → ℕ → Message → Bool
residue to epoch m = queued_to to m && leb m.id epoch

unfoldable pub mark_acknowledged_batch : String → ℕ → Store → ℕ × Store
mark_acknowledged_batch to epoch s =
    let old = residue (canonical_name to) epoch in
    if epoch == 0 then (0, s) else (
      count_rows old s.messages,
      record s { messages = update_rows old (with_state State.acknowledged) s.messages },
    )

-- `staleQueuedPredicate`
abbrev pub stale_queued : String → Message → Bool
stale_queued to m = queued_to to m && not (is_some m.deliver_after)

unfoldable pub count_stale_queued : String → Store → ℕ
count_stale_queued to s = count_rows (stale_queued (canonical_name to)) s.messages

unfoldable pub ack_stale_queued : String → Store → ℕ × Store
ack_stale_queued to s =
    let stale = stale_queued (canonical_name to) in
    (
      count_rows stale s.messages,
      record s { messages = update_rows stale (with_state State.acknowledged) s.messages },
    )
