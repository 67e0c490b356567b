-- ===== src/Mailman/Round/Soundness.antt =====
-- What an attempt and the answer to a ping do to the table.
pub mod Steps
use tmux_tell.Common.{
  ℕ, String, Bool, true, false, Option, none, some, refl, if_cases, str_eq, arith, ltb, leb, ◌&&◌,
}
use tmux_tell.Gate.{PaneState, GateOutcome}
use tmux_tell.Store.Tables.{Kind, Reason, Message, Store, Result, ok, err, same_kind}
use tmux_tell.Store.Evolution.{Evolves-refl, Evolves-trans}
use tmux_tell.Store.Integrity.{IsSound}
use tmux_tell.Store.Moves.{kept}
use tmux_tell.Store.Schedule.{Strategy}
use tmux_tell.Store.Insert.Operations.{ring}
use tmux_tell.Store.Insert.Growth.Calls.{insert_notice-Grows}
use tmux_tell.Store.Claim.{claim_next_with_strategy, recover_delivering}
use tmux_tell.Store.Deliver.{mark_delivered, mark_delivered_in_input_box}
use tmux_tell.Store.Agents.{set_stuck, increment_respawn_shrink_count}
use tmux_tell.Store.History.Rows.{
  claim-Moves, recover-Moves, delivered-Moves, failed-Moves, promote-Moves,
}
use tmux_tell.Store.History.Life.{Kept, grown, moved}
use tmux_tell.Mailman.Attempt.{
  ServeOpts, LoopVars, Verdict, Prepared, Answers, ProbeFailure, attempt, gate_verdict,
  after_verdict, clear_limits, pre_paste_check, on_pane_gone, unsafe_for, flush_draft,
  flushed_after, archive_stranded_draft, archives, Flush, notice_params, render_stranded_draft_body,
  count_pane_fail,
}
use tmux_tell.Mailman.Outcome.{
  Delivery, OutcomeOpts, on_delivery, end_round, maybe_insert_failure_notice, promote_resume,
  count_clear, is_session_reset_control, is_clear_control, render_failure_notice_body,
}
use tmux_tell.Mailman.Round.{
  RoundAnswers, round, after_claim, after_attempt, handle_ping, answer_ping, ping_failure,
  forget_others,
}
use tmux_tell.Mailman.Round.Soundness.Steps.{
  on_delivery-Kept, Kept-refl, Kept-trans, stuck-Kept, shrink-Kept, recover-Kept, on_pane_gone-Kept,
  pre_paste_check-Kept, after_verdict-Kept, promote_resume-Kept, count_clear-Kept,
}

module _ (draws : ℕ → Option String) (now : ℕ) where
  pub answer_ping-Kept :
      (m : Message) (s : Store) (r : Option String) → IsSound s → Kept s (answer_ping now m s r)
  unfolding mark_delivered
  answer_ping-Kept m s none h = moved h (delivered-Moves m.public_id now true s)
  answer_ping-Kept m s (some r) h = moved h (failed-Moves m.public_id (Reason.text r) now s)

pub ring-Kept : (to : String) (s : Store) → IsSound s → Kept s (ring to s)
ring-Kept to s h = moved h (kept refl refl)

module _ (wake_delay : ℕ → ℕ → ℕ) (draws : ℕ → Option String) (now : ℕ) (binary_name : String) where
  archived-Kept :
      (agent pane trigger content : String) (s : Store)
      → IsSound s
      → Kept s
          (flushed_after content
            (archive_stranded_draft draws now binary_name agent pane trigger content s)).1
  unfolding archive_stranded_draft
  archived-Kept agent pane trigger content s h = grown h (
      insert_notice-Grows draws now
        (notice_params agent agent (render_stranded_draft_body binary_name pane trigger content)
          Kind.stranded_draft)
        s)

  flush_draft-Kept :
      (agent pane : String) (fresh : Option String) (out : GateOutcome) (m : Message) (s : Store)
      → IsSound s
      → Kept s (flush_draft draws now binary_name agent pane fresh out m s).1
  unfolding flush_draft
  flush_draft-Kept agent pane none out m s h =
      if_cases (λ (x : Flush × Store). Kept s x.1) (archives out m)
        (λ _. archived-Kept agent pane m.public_id out.input_content s h) (λ _. Kept-refl s h)
  flush_draft-Kept agent pane (some c) out m s h =
      if_cases (λ (x : Flush × Store). Kept s x.1) (archives out m)
        (λ _.
          if_cases (λ (x : Flush × Store). Kept s x.1) (str_eq c "") (λ _. Kept-refl s h)
            (λ _. archived-Kept agent pane m.public_id c s h))
        (λ _. Kept-refl s h)

  pub attempt-Kept :
      (o : ServeOpts) (pane : String) (a : Answers) (m : Message) (v : LoopVars) (s : Store)
      → IsSound s
      → Kept s (attempt wake_delay draws now binary_name o pane a m v s).store
  unfolding attempt
  attempt-Kept o pane a m v s h =
      let g = gate_verdict wake_delay o a.canceled a.outcome a.gate_error m v in
      let t = (flush_draft draws now binary_name o.agent pane a.fresh a.outcome m s).1 in
      if_cases (λ (p : Prepared). Kept s p.store) o.gate_disabled
        (λ _. pre_paste_check-Kept o a.probe a.probe_failure m v s h)
        (λ _.
          after_verdict-Kept o g s
            (pre_paste_check o a.probe a.probe_failure m (clear_limits m g.1) t) h
            (Kept-trans (flush_draft-Kept o.agent pane a.fresh a.outcome m s h)
              (pre_paste_check-Kept o a.probe a.probe_failure m (clear_limits m g.1) t)))
