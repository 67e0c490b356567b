-- ===== src/Mailman/Outcome.antt =====
-- internal/cli/serve.go: what the mailman records of a delivery, by the error of `deliverOne`. The
-- relaunch and the respawn of a chamber, the wait for a stable pane, the log and the metrics are left out.
pub mod Landed
use Prim.Native.String.{◌++◌}
use tmux_tell.Common.{
  ℕ, String, Bool, true, false, Option, none, some, ◌&&◌, ◌||◌, ltb, str_eq, if◌then◌else◌,
}
use tmux_tell.Names.{trim_left, trim_right}
use tmux_tell.Store.Tables.{Kind, Reason, Message, Store, same_kind}
use tmux_tell.Store.Insert.Operations.{ring, insert_notice}
use tmux_tell.Store.Agents.{increment_respawn_shrink_count}
use tmux_tell.Store.Claim.{recover_delivering}
use tmux_tell.Store.Deliver.{
  mark_delivered, mark_delivered_in_input_box, mark_failed, promote_deferred,
}
use tmux_tell.Mailman.Attempt.{notice_params}

-- The classes of the error of `deliverOne`; `failed` has its text.
pub data Delivery : Type 0 where
  verified externally_submitted unverified control_unsupported input_raced prior_paste_stuck :
      Delivery
  failed : String → Delivery

abbrev pub trimmed : Message → String
trimmed m = trim_right (trim_left m.body)

-- `isSessionResetControl`
unfoldable pub is_session_reset_control : Message → Bool
is_session_reset_control m =
    same_kind m.kind Kind.control && (str_eq (trimmed m) "/compact" || str_eq (trimmed m) "/clear")

-- `isClearControl`
unfoldable pub is_clear_control : Message → Bool
is_clear_control m = same_kind m.kind Kind.control && str_eq (trimmed m) "/clear"

-- `isCompactControl`
unfoldable pub is_compact_control : Message → Bool
is_compact_control m = same_kind m.kind Kind.control && str_eq (trimmed m) "/compact"

-- `postDeliverDelay`
unfoldable pub post_deliver_delay : Bool → ℕ → ℕ → ℕ
post_deliver_delay delivered inter_message cooldown =
    if delivered && ltb inter_message cooldown then cooldown else inter_message

-- `renderFailureNoticeBody`
abbrev pub headline : String → String
headline failure_kind =
    if str_eq failure_kind "delivered_in_input_box" then "unverified" else failure_kind

unfoldable pub render_failure_notice_body : Message → String → String → String
render_failure_notice_body m failure_kind reason =
    ":warning: "
    ++ (m.public_id
        ++ (" → "
            ++ (m.to_agent
                ++ (" "
                    ++ (headline failure_kind
                        ++ (": " ++ (reason ++ (" — resend " ++ m.public_id))))))))

-- The options of the loop that this step reads.
pub record OutcomeOpts : Type 0 where
  pub agent : String
  pub notify_on_failed : Bool
  pub notify_on_delivered_in_input_box : Bool
  pub inter_message_delay : ℕ
  pub post_deliver_cooldown : ℕ
  pub respawn_after_shrinks : ℕ

-- A delivered reset of the session fires what was staged for the resume.
unfoldable pub promote_resume : OutcomeOpts → Message → Store → Store
promote_resume o m s =
    if is_session_reset_control m then (promote_deferred o.agent "resume" s).1 else s

-- A delivered clear is counted where the agent asked for a respawn after some number of them.
unfoldable pub count_clear : OutcomeOpts → Message → Store → Store
count_clear o m s =
    if is_clear_control m && ltb 0 o.respawn_after_shrinks
    then (increment_respawn_shrink_count o.agent s).1
    else s

module _ (draws : ℕ → Option String) (now : ℕ) where
  -- `maybeInsertFailureNotice`: none about a notice.
  unfoldable pub maybe_insert_failure_notice :
      Bool → String → Message → String → String → Store → Store
  maybe_insert_failure_notice enabled this m failure_kind reason s =
      if enabled
      then if same_kind m.kind Kind.delivery_failure_notice
        then s
        else (insert_notice draws now
            (notice_params this m.from_agent (render_failure_notice_body m failure_kind reason)
              Kind.delivery_failure_notice)
            s).1
      else s

  -- The switch on the error, with whether it counts as a delivery.
  unfoldable pub on_delivery : OutcomeOpts → Delivery → Message → Store → Bool × Store
  unfolding maybe_insert_failure_notice promote_resume count_clear
  on_delivery o Delivery.verified m s =
      (true, count_clear o m (promote_resume o m (mark_delivered m.public_id now s).1))
  on_delivery o Delivery.externally_submitted m s = (true, (mark_delivered m.public_id now s).1)
  on_delivery o Delivery.unverified m s = (
    true,
    maybe_insert_failure_notice o.notify_on_delivered_in_input_box o.agent m
        "delivered_in_input_box" "paste+Enter completed but verify token didn't surface in time"
        (mark_delivered_in_input_box m.public_id now s).1,
  )
  on_delivery o Delivery.control_unsupported m s = (false, (mark_delivered m.public_id now s).1)
  on_delivery o Delivery.input_raced m s = (false, (recover_delivering o.agent s).1)
  on_delivery o Delivery.prior_paste_stuck m s = (false, (recover_delivering o.agent s).1)
  on_delivery o (Delivery.failed e) m s = (
    false,
    maybe_insert_failure_notice o.notify_on_failed o.agent m "failed" e
        (mark_failed m.public_id (Reason.text e) now s).1,
  )

  -- The end of a round of the loop: the doorbell rings, and how long the mailman sleeps.
  unfoldable pub end_round : OutcomeOpts → Delivery → Message → Store → ℕ × Store
  unfolding on_delivery post_deliver_delay
  end_round o d m s =
      let (delivered, t) = on_delivery o d m s in
      (post_deliver_delay delivered o.inter_message_delay o.post_deliver_cooldown, ring o.agent t)
