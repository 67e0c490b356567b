-- ===== src/Mailman/Round/Soundness/Steps.antt =====
-- What the steps of a round that insert no message do to the table.
use tmux_tell.Common.{
  String, Option, none, some, if_cases, arith, ltb, leb, ◌&&◌, ℕ, Bool, true, false,
}
use tmux_tell.Gate.{PaneState}
use tmux_tell.Store.Tables.{Message, Store, Kind, Reason, same_kind}
use tmux_tell.Store.Evolution.{Evolves-refl, Evolves-trans}
use tmux_tell.Store.Integrity.{IsSound}
use tmux_tell.Store.Moves.{kept}
use tmux_tell.Store.Claim.{recover_delivering}
use tmux_tell.Store.Agents.{set_stuck, increment_respawn_shrink_count}
use tmux_tell.Store.History.Rows.{recover-Moves, promote-Moves, delivered-Moves, failed-Moves}
use tmux_tell.Store.History.Life.{Kept, moved, grown}
use tmux_tell.Mailman.Attempt.{
  ServeOpts, LoopVars, Verdict, Prepared, ProbeFailure, after_verdict, pre_paste_check,
  on_pane_gone, unsafe_for, count_pane_fail, notice_params,
}
use tmux_tell.Mailman.Outcome.{
  OutcomeOpts, promote_resume, count_clear, is_session_reset_control, is_clear_control, Delivery,
  on_delivery, maybe_insert_failure_notice, render_failure_notice_body,
}
use tmux_tell.Store.Insert.Growth.Calls.{insert_notice-Grows}
use tmux_tell.Store.Deliver.{mark_delivered, mark_delivered_in_input_box}

pub Kept-refl : (s : Store) → IsSound s → Kept s s
Kept-refl s h = record { rows = Evolves-refl s.messages; sound = h }

pub Kept-trans : {s t u : Store} → Kept s t → (IsSound t → Kept t u) → Kept s u
Kept-trans {s} {t} {u} k next =
    let l = next k.sound in
    record { rows = Evolves-trans s.messages t.messages u.messages k.rows l.rows; sound = l.sound }

pub stuck-Kept :
    (agent reason : String) (s : Store) → IsSound s → Kept s (set_stuck agent reason s).1
unfolding set_stuck
stuck-Kept agent reason s h = moved h (kept (ground arith) (ground arith))

pub shrink-Kept :
    (agent : String) (s : Store) → IsSound s → Kept s (increment_respawn_shrink_count agent s).1
unfolding increment_respawn_shrink_count
shrink-Kept agent s h = moved h (kept (ground arith) (ground arith))

pub recover-Kept : (agent : String) (s : Store) → IsSound s → Kept s (recover_delivering agent s).1
recover-Kept agent s h = moved h (recover-Moves agent s)

pub on_pane_gone-Kept :
    (o : ServeOpts) (m : Message) (v : LoopVars) (s : Store)
    → IsSound s
    → Kept s (on_pane_gone o m v s).store
unfolding on_pane_gone
on_pane_gone-Kept o m v s h =
    if_cases (λ (p : Prepared). Kept s p.store)
      (ltb 0 o.stuck_threshold
        && leb o.stuck_threshold (count_pane_fail m.public_id v).consecutive_pane_fails)
      (λ _. stuck-Kept o.agent "pane-not-found" s h) (λ _. Kept-refl s h)

pub pre_paste_check-Kept :
    (o : ServeOpts) (st : PaneState) (f : Option ProbeFailure) (m : Message) (v : LoopVars)
    (s : Store)
    → IsSound s
    → Kept s (pre_paste_check o st f m v s).store
unfolding pre_paste_check
pre_paste_check-Kept o st none m v s h =
    if_cases (λ (p : Prepared). Kept s p.store) o.pre_paste_safety_disabled (λ _. Kept-refl s h)
      (λ _.
        if_cases (λ (p : Prepared). Kept s p.store) (unsafe_for m st)
          (λ _. recover-Kept o.agent s h) (λ _. Kept-refl s h))
pre_paste_check-Kept o st (some ProbeFailure.pane_gone) m v s h =
    if_cases (λ (p : Prepared). Kept s p.store) o.pre_paste_safety_disabled (λ _. Kept-refl s h)
      (λ _.
        Kept-trans (recover-Kept o.agent s h)
          (on_pane_gone-Kept o m v (recover_delivering o.agent s).1))
pre_paste_check-Kept o st (some ProbeFailure.other_failure) m v s h =
    if_cases (λ (p : Prepared). Kept s p.store) o.pre_paste_safety_disabled (λ _. Kept-refl s h)
      (λ _. recover-Kept o.agent s h)

pub after_verdict-Kept :
    (o : ServeOpts) (g : Verdict × LoopVars) (s : Store) (next : Prepared)
    → IsSound s
    → Kept s next.store
    → Kept s (after_verdict o g s next).store
after_verdict-Kept o (Verdict.goes_on, v) s next h k = k
after_verdict-Kept o (Verdict.stops, v) s next h k = Kept-refl s h
after_verdict-Kept o (Verdict.parks, v) s next h k = recover-Kept o.agent s h
after_verdict-Kept o (Verdict.retries_after d, v) s next h k = recover-Kept o.agent s h

pub promote_resume-Kept :
    (o : OutcomeOpts) (m : Message) (s : Store) → IsSound s → Kept s (promote_resume o m s)
unfolding promote_resume
promote_resume-Kept o m s h =
    if_cases (Kept s) (is_session_reset_control m) (λ _. moved h (promote-Moves o.agent "resume" s))
      (λ _. Kept-refl s h)

pub count_clear-Kept :
    (o : OutcomeOpts) (m : Message) (s : Store) → IsSound s → Kept s (count_clear o m s)
unfolding count_clear
count_clear-Kept o m s h =
    if_cases (Kept s) (is_clear_control m && ltb 0 o.respawn_after_shrinks)
      (λ _. shrink-Kept o.agent s h) (λ _. Kept-refl s h)

module _ (draws : ℕ → Option String) (now : ℕ) where
  pub failure_notice-Kept :
      (enabled : Bool) (this : String) (m : Message) (kind reason : String) (s : Store)
      → IsSound s
      → Kept s (maybe_insert_failure_notice draws now enabled this m kind reason s)
  unfolding maybe_insert_failure_notice
  failure_notice-Kept enabled this m kind reason s h =
      if_cases (Kept s) enabled
        (λ _.
          if_cases (Kept s) (same_kind m.kind Kind.delivery_failure_notice) (λ _. Kept-refl s h)
            (λ _. grown h (
              insert_notice-Grows draws now
                (notice_params this m.from_agent (render_failure_notice_body m kind reason)
                  Kind.delivery_failure_notice)
                s)))
        (λ _. Kept-refl s h)

  pub on_delivery-Kept :
      (o : OutcomeOpts) (d : Delivery) (m : Message) (s : Store)
      → IsSound s
      → Kept s (on_delivery draws now o d m s).1
  unfolding on_delivery mark_delivered mark_delivered_in_input_box
  on_delivery-Kept o Delivery.verified m s h =
      Kept-trans (moved h (delivered-Moves m.public_id now true s))
        (λ k. Kept-trans (promote_resume-Kept o m _ k) (count_clear-Kept o m _))
  on_delivery-Kept o Delivery.externally_submitted m s h =
      moved h (delivered-Moves m.public_id now true s)
  on_delivery-Kept o Delivery.unverified m s h =
      Kept-trans (moved h (delivered-Moves m.public_id now false s))
        (failure_notice-Kept o.notify_on_delivered_in_input_box o.agent m _ _ _)
  on_delivery-Kept o Delivery.control_unsupported m s h =
      moved h (delivered-Moves m.public_id now true s)
  on_delivery-Kept o Delivery.input_raced m s h = recover-Kept o.agent s h
  on_delivery-Kept o Delivery.prior_paste_stuck m s h = recover-Kept o.agent s h
  on_delivery-Kept o (Delivery.failed e) m s h =
      Kept-trans (moved h (failed-Moves m.public_id (Reason.text e) now s))
        (failure_notice-Kept o.notify_on_failed o.agent m _ _ _)
