-- ===== src/Store/Insert.antt =====
-- internal/store/messages.go: `InsertMessage`, `InsertNotice`, `InsertMessagePair`, their checks, and
-- the refused row that a cap rejection leaves. Public ids come from `draws`, the results of
-- `generatePublicID` in order; `none` is a failure of the random source.
pub mod Attempts
pub mod Operations
mod Outcomes
pub mod Caps
pub mod Atomic
pub mod Refused
pub mod Notices
pub mod Growth
use tmux_tell.Common.{
  ℕ, zero, suc, ◌+◌, ◌<◌, String, Bool, true, false, Option, none, some, List, [], ◌∷◌, ◌++◌, ◌&&◌,
  ◌||◌, not, ltb, leb, ◌==◌, str_eq, if◌then◌else◌, any_row, count_rows, first_row, max,
}
use tmux_tell.Names.{canonical_name}
use tmux_tell.Store.Schedule.Levels.{priority_normal}
use tmux_tell.Store.Tables.{
  State, Kind, CapError, recipient_queue_full, sender_backlog_full, Reason, Message, Agent, Store,
  Error, body_required, from_and_to_required, reply_to_not_found, entropy_failed,
  public_ids_exhausted, foreign_key, pair_must_share, link_conflict, cap_rejected, Result, ok, err,
  is_state,
}

pub record InsertParams : Type 0 where
  pub from_agent : String
  pub to_agent : String
  pub reply_to : String
  pub body : String
  pub kind : Option Kind
  pub no_reply_expected : Bool
  pub quick : Bool
  pub replay_of : String
  pub replay_of_at : String
  pub deliver_after : String
  pub expects_reply : Bool
  pub priority : ℕ
  pub force_rate_limited : Bool
  pub max_recipient_queue : ℕ
  pub max_sender_backlog : ℕ

pub record InsertResult : Type 0 where
  pub public_id : String
  pub queued : ℕ

-- An empty Go string becomes a NULL.
abbrev pub nullable : String → Option String
nullable s = if str_eq s "" then none else some s

abbrev pub kind_or_message : Option Kind → Kind
kind_or_message none = Kind.message
kind_or_message (some k) = k

abbrev pub canonical_params : InsertParams → InsertParams
canonical_params p = record p {
  to_agent = canonical_name p.to_agent;
  from_agent = canonical_name p.from_agent;
}

abbrev pub uncapped : InsertParams → InsertParams
uncapped p = record p { max_recipient_queue = 0; max_sender_backlog = 0 }

unfoldable pub validate_insert_params : InsertParams → Option Error
validate_insert_params p =
    if str_eq p.body ""
    then some body_required
    else if str_eq p.from_agent "" || str_eq p.to_agent ""
    then some from_and_to_required
    else none

abbrev pub has_public_id : String → Message → Bool
has_public_id i m = str_eq m.public_id i

unfoldable pub validate_reply_to : String → Store → Option Error
validate_reply_to reply_to s =
    if str_eq reply_to ""
    then none
    else if any_row (has_public_id reply_to) s.messages
    then none
    else some reply_to_not_found

-- The recipient's queued rows, and those of one sender among them.
abbrev pub queued_to : String → Message → Bool
queued_to to m = str_eq m.to_agent to && is_state State.queued m

abbrev pub queued_from_to : String → String → Message → Bool
queued_from_to from to m =
    str_eq m.from_agent from && str_eq m.to_agent to && is_state State.queued m

unfoldable pub queue_depth : String → Store → ℕ
queue_depth to s = count_rows (queued_to to) s.messages

unfoldable pub pair_backlog : String → String → Store → ℕ
pair_backlog from to s = count_rows (queued_from_to from to) s.messages

-- recipientcap.go
unfoldable pub recipient_queue_cap_floor : String → ℕ
recipient_queue_cap_floor provider = if str_eq provider "openai" then 20 else 0

abbrev pub named : String → Agent → Bool
named n a = str_eq a.name n

abbrev pub floored_cap : ℕ → Option Agent → ℕ
floored_cap passed none = passed
floored_cap passed (some a) =
    if ltb passed (recipient_queue_cap_floor a.provider)
    then recipient_queue_cap_floor a.provider
    else passed

-- The cap that is enforced: raised to the floor of the recipient's provider, if it is registered.
unfoldable pub effective_cap : InsertParams → Store → ℕ
unfolding recipient_queue_cap_floor
effective_cap p s = floored_cap p.max_recipient_queue (first_row (named p.to_agent) s.agents)

unfoldable pub check_caps_in_tx : InsertParams → ℕ → Store → Option CapError
check_caps_in_tx p added s =
    if ltb 0 p.max_recipient_queue && ltb (effective_cap p s) (queue_depth p.to_agent s + added)
    then some (recipient_queue_full (queue_depth p.to_agent s) (effective_cap p s) added)
    else if ltb 0 p.max_sender_backlog
        && ltb p.max_sender_backlog (pair_backlog p.from_agent p.to_agent s + added)
    then some
        (sender_backlog_full (pair_backlog p.from_agent p.to_agent s) p.max_sender_backlog added)
    else none
