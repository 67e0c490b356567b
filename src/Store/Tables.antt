-- ===== src/Store/Tables.antt =====
-- internal/store/types.go and schema.sql: the rows of the two tables, and the state of the store.
-- Timestamps are numbers of milliseconds: the text form that the columns hold has a fixed width, so
-- it sorts as they do. A NULL is `none`.
use tmux_tell.Common.{ℕ, String, Bool, Option, List, ◌==◌}

pub data State : Type 0 where
  queued delivering delivered failed acknowledged deferred refused : State

pub data Kind : Type 0 where
  message control delivery_failure_notice stranded_draft ping dedupe_notice : Kind
  backlog_announce stuck_chamber_notice dead_mailman_notice : Kind

abbrev pub state_code : State → ℕ
state_code State.queued = 0
state_code State.delivering = 1
state_code State.delivered = 2
state_code State.failed = 3
state_code State.acknowledged = 4
state_code State.deferred = 5
state_code State.refused = 6

abbrev pub same_state : State → State → Bool
same_state a b = state_code a == state_code b

abbrev pub kind_code : Kind → ℕ
kind_code Kind.message = 0
kind_code Kind.control = 1
kind_code Kind.delivery_failure_notice = 2
kind_code Kind.stranded_draft = 3
kind_code Kind.ping = 4
kind_code Kind.dedupe_notice = 5
kind_code Kind.backlog_announce = 6
kind_code Kind.stuck_chamber_notice = 7
kind_code Kind.dead_mailman_notice = 8

abbrev pub same_kind : Kind → Kind → Bool
same_kind a b = kind_code a == kind_code b

-- Why a cap check failed; `Error()` renders these numbers.
pub data CapError : Type 0 where
  recipient_queue_full : ℕ → ℕ → ℕ → CapError
  sender_backlog_full : ℕ → ℕ → ℕ → CapError

-- The text of the `error` column: free text, or the rendering of a cap error.
pub data Reason : Type 0 where
  text : String → Reason
  cap : CapError → Reason

pub record Message : Type 0 where
  pub id : ℕ
  pub public_id : String
  pub from_agent : String
  pub to_agent : String
  pub reply_to : Option String
  pub body : String
  pub kind : Kind
  pub no_reply_expected : Bool
  pub quick : Bool
  pub state : State
  pub created_at : ℕ
  pub delivered_at : Option ℕ
  pub error : Option Reason
  pub replay_of : Option String
  pub replay_of_at : Option String
  pub deliver_after : Option String
  pub verified : Option Bool
  pub expects_reply : Bool
  pub priority : ℕ
  pub force_rate_limited : Bool

pub record Agent : Type 0 where
  pub name : String
  pub pane_id : Option String
  pub paused : Bool
  pub updated_at : ℕ
  pub aliases : List String
  pub delivery_mode : String
  pub backlog_epoch : Option ℕ
  pub attention_state : String
  pub stuck_reason : String
  pub display_name : String
  pub session_id : String
  pub metabolism : String
  pub metabolism_set_at : Option ℕ
  pub respawn_after_shrinks : ℕ
  pub respawn_shrink_count : ℕ
  pub last_self_compact_at : Option ℕ
  pub self_compact_counted_at : Option ℕ
  pub resume_promoted_at : Option ℕ
  pub relaunch_cmd : String
  pub auto_restart : Bool
  pub provider : String

-- The tables in the order of their row ids, with the next id that AUTOINCREMENT gives; how many
-- public ids were generated; and the doorbells rung, oldest first.
pub record Store : Type 0 where
  pub messages : List Message
  pub agents : List Agent
  pub next_id : ℕ
  pub drawn : ℕ
  pub rings : List String

pub data Error : Type 0 where
  body_required from_and_to_required reply_to_not_found entropy_failed : Error
  public_ids_exhausted foreign_key pair_must_share link_conflict not_found : Error
  cutoff_required states_required invalid_value name_required reserved_name : Error
  alias_collision : Error
  cap_rejected : Option String → CapError → Error

pub data Result (A : Type 0) : Type 0 where
  ok : A → Result A
  err : Error → Result A

-- A row's state tests.
abbrev pub is_state : State → Message → Bool
is_state s m = same_state m.state s
