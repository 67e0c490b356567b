-- ===== src/Store/Claim.antt =====
-- internal/store/messages.go: `ClaimNext`, `ClaimNextWithStrategy` and `RecoverDelivering`, by which
-- the mailman of an agent takes the next message and gives back what a crash left in flight.
pub mod Choice
pub mod Recover
use tmux_tell.Common.{
  ℕ, String, Bool, true, false, Option, none, some, List, map, ◌&&◌, ◌||◌, ltb, ◌==◌, str_eq,
  if◌then◌else◌, select_rows, update_rows, first_row, count_rows,
}
use tmux_tell.Names.{canonical_name}
use tmux_tell.Store.Schedule.{Candidate, Strategy, max_priority, select_scheduled}
use tmux_tell.Store.Tables.{
  State, Message, Agent, Store, Error, not_found, Result, ok, err, is_state,
}
use tmux_tell.Store.Insert.{named, queued_to}

-- `COALESCE((SELECT backlog_epoch_id FROM agents WHERE name = ?), 0)`
abbrev pub floor_of : Option Agent → ℕ
floor_of none = 0
floor_of (some a) = elim a.backlog_epoch [ none ↦ 0 | some n ↦ n ]

unfoldable pub backlog_floor : String → Store → ℕ
backlog_floor to s = floor_of (first_row (named to) s.agents)

abbrev pub is_some : {A : Type 0} → Option A → Bool
is_some none = false
is_some (some a) = true

-- Queued for the agent, and above its backlog floor unless the row was promoted from deferral.
abbrev pub eligible : String → ℕ → Message → Bool
eligible to floor m = queued_to to m && (is_some m.deliver_after || ltb floor m.id)

abbrev pub candidate : Message → Candidate
candidate m = record { id = m.id; from_agent = m.from_agent; priority = m.priority }

abbrev pub has_id : ℕ → Message → Bool
has_id i m = m.id == i

abbrev pub with_state : State → Message → Message
with_state st m = record m { state = st }

unfoldable pub candidates : String → Store → List Candidate
unfolding backlog_floor
candidates to s = map candidate (select_rows (eligible to (backlog_floor to s)) s.messages)

-- Fetch the chosen row and mark it as being delivered.
abbrev pub take_row : ℕ → Store → Option Message → Result (Option Message) × Store
take_row i s none = (err not_found, s)
take_row i s (some m) = (
  ok (some (with_state State.delivering m)),
  record s { messages = update_rows (has_id i) (with_state State.delivering) s.messages },
)

abbrev pub claim_chosen : Store → Option ℕ → Result (Option Message) × Store
claim_chosen s none = (ok none, s)
claim_chosen s (some i) = take_row i s (first_row (has_id i) s.messages)

unfoldable pub claim_next_with_strategy :
    String → Strategy → Store → Result (Option Message) × Store
unfolding candidates
claim_next_with_strategy to strategy s =
    claim_chosen s (select_scheduled (candidates (canonical_name to) s) strategy)

unfoldable pub claim_next : String → Store → Result (Option Message) × Store
unfolding claim_next_with_strategy
claim_next to s = claim_next_with_strategy to max_priority s

abbrev pub delivering_to : String → Message → Bool
delivering_to to m = str_eq m.to_agent to && is_state State.delivering m

unfoldable pub recover_delivering : String → Store → ℕ × Store
recover_delivering to s =
    let mine = delivering_to (canonical_name to) in
    (
      count_rows mine s.messages,
      record s { messages = update_rows mine (with_state State.queued) s.messages },
    )
