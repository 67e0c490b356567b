-- ===== src/Store/Deliver.antt =====
-- internal/store/messages.go: how a delivery ends (`MarkDelivered`, `MarkDeliveredInInputBox`,
-- `MarkFailed`), how a deferred row is promoted (`PromoteDeferred`), and the dedupe path
-- (`FindDedupeMatch`, `MarkVerifiedByDedupe`).
pub mod Dedupe
use tmux_tell.Common.{
  ℕ, suc, String, Bool, true, false, Option, none, some, List, [], ◌∷◌, ◌++◌, ◌&&◌, not, ltb, ◌==◌,
  str_eq, if◌then◌else◌, update_rows, count_rows, first_row,
}
use tmux_tell.Names.{canonical_name}
use tmux_tell.Store.Tables.{
  State, Reason, Message, Store, Error, not_found, Result, ok, err, is_state,
}
use tmux_tell.Store.Insert.{has_public_id}
use tmux_tell.Store.Insert.Operations.{ring}
use tmux_tell.Store.Claim.{with_state}

-- UPDATE … WHERE p, refused with `ErrNotFound` where no row matches.
abbrev pub update_or_not_found :
    (Message → Bool) → (Message → Message) → Store → Result (Unit {0}) × Store
update_or_not_found p f s =
    if count_rows p s.messages == 0
    then (err not_found, s)
    else (ok tt, record s { messages = update_rows p f s.messages })

abbrev pub in_flight : String → Message → Bool
in_flight i m = has_public_id i m && is_state State.delivering m

abbrev pub as_delivered : Bool → ℕ → Message → Message
as_delivered verified now m = record m {
  state = State.delivered;
  verified = some verified;
  delivered_at = some now;
}

abbrev pub as_failed : Reason → ℕ → Message → Message
as_failed reason now m = record m {
  state = State.failed;
  error = some reason;
  delivered_at = some now;
}

unfoldable pub mark_delivered_core : String → Bool → ℕ → Store → Result (Unit {0}) × Store
mark_delivered_core i verified now s =
    update_or_not_found (in_flight i) (as_delivered verified now) s

unfoldable pub mark_delivered : String → ℕ → Store → Result (Unit {0}) × Store
unfolding mark_delivered_core
mark_delivered i now s = mark_delivered_core i true now s

unfoldable pub mark_delivered_in_input_box : String → ℕ → Store → Result (Unit {0}) × Store
unfolding mark_delivered_core
mark_delivered_in_input_box i now s = mark_delivered_core i false now s

unfoldable pub mark_failed : String → Reason → ℕ → Store → Result (Unit {0}) × Store
mark_failed i reason now s = update_or_not_found (in_flight i) (as_failed reason now) s

abbrev pub same_text? : Option String → String → Bool
same_text? none t = false
same_text? (some s) t = str_eq s t

abbrev pub waits_for : String → String → Message → Bool
waits_for to trigger m =
    str_eq m.to_agent to && is_state State.deferred m && same_text? m.deliver_after trigger

-- The doorbell rings once if any row was promoted.
unfoldable pub promote_deferred : String → String → Store → ℕ × Store
promote_deferred to trigger s =
    let agent = canonical_name to in
    let waiting = waits_for agent trigger in
    let n = count_rows waiting s.messages in
    let t = record s { messages = update_rows waiting (with_state State.queued) s.messages } in
    (n, if ltb 0 n then ring agent t else t)

abbrev pub is_false? : Option Bool → Bool
is_false? (some false) = true
is_false? _ = false

abbrev pub dedupe_candidate : String → String → String → ℕ → Message → Bool
dedupe_candidate from to body cutoff m =
    str_eq m.from_agent from
    && str_eq m.to_agent to
    && str_eq m.body body
    && is_state State.delivered m
    && is_false? m.verified
    && ltb cutoff m.created_at

-- `ORDER BY id DESC LIMIT 1`: the last match, in a table that is in the order of ids.
abbrev pub or_else : {A : Type 0} → Option A → Option A → Option A
or_else none b = b
or_else (some a) b = some a

unfoldable pub last_row : (Message → Bool) → List Message → Option Message
last_row p [] = none
last_row p (m ∷ ms) = or_else (last_row p ms) (if p m then some m else none)

unfoldable pub find_dedupe_match : String → String → String → ℕ → Store → Option Message
unfolding last_row
find_dedupe_match from to body cutoff s =
    last_row (dedupe_candidate (canonical_name from) (canonical_name to) body cutoff) s.messages

abbrev pub unverified_delivery : String → Message → Bool
unverified_delivery i m = has_public_id i m && is_state State.delivered m && is_false? m.verified

abbrev pub as_verified : Message → Message
as_verified m = record m { verified = some true }

unfoldable pub mark_verified_by_dedupe : String → Store → Result (Unit {0}) × Store
mark_verified_by_dedupe i s = update_or_not_found (unverified_delivery i) as_verified s

unfoldable pub get_message : String → Store → Result Message
get_message i s = elim (first_row (has_public_id i) s.messages) [
  | none ↦ err not_found
  | some m ↦ ok m
]
