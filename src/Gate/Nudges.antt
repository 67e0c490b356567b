-- ===== src/Gate/Nudges.antt =====
-- The loop of `ObserveGate` sleeps within its bounds and nudges the operator once.
use tmux_tell.Common.{
  ℕ, ◌+◌, ◌-◌, ◌≤◌, String, Bool, true, false, some, List, [], ◌∷◌, ◌≡◌, refl, arith, leb, ltb,
  if◌then◌else◌, if_cases, All, subst,
}
use tmux_tell.Gate.Safety.{observe_gate-run}
use tmux_tell.Gate.{
  PaneState, GateOpts, Poll, GateState, GateStep, returns, sleeps, content_of, gate_step, gate_loop,
  GateRun, copy_mode_query_fail_defer_threshold, is_in_copy_mode, trusted_state, count_query,
  counted, cap, on_state, watch, nudge, stamp, after_step, observe_gate, with_defaults, first_round,
}

-- A state of the loop whose operator has been nudged at most once.
abbrev IsQuiet : GateState → Type 0
IsQuiet g = g.nudges ≡ (if g.notified_of_typing then 1 else 0)

IsQuiet-le : (g : GateState) → IsQuiet g → g.nudges ≤ 1
IsQuiet-le g h = ground arith

-- The interval lies between the bounds.
abbrev IsPaced : GateOpts → GateState → Type 0
IsPaced o g = g.poll_interval ≤ o.poll_interval_max

abbrev IsKept : GateOpts → GateStep → Type 0
IsKept o (returns out err h) = IsQuiet h
IsKept o (sleeps d h) = (d ≤ o.poll_interval_max) × IsQuiet h × IsPaced o h

module _ (scale : ℕ → ℕ) (hash_content : String → String) where
  module _ (o : GateOpts) (deadline : ℕ) (ordered : o.poll_interval_min ≤ o.poll_interval_max) where
    cap-IsKept :
        (st : PaneState) (p : Poll) (g : GateState)
        → IsQuiet g
        → IsPaced o g
        → IsKept o (cap scale hash_content o deadline st p g)
    cap-IsKept st p g quiet paced =
        if_cases (IsKept o) (ltb deadline p.checked_at)
          (λ _.
            if_cases (IsKept o) (is_in_copy_mode st) (λ _. quiet)
              (λ _. if_cases (IsKept o) (ltb 0 g.copy_mode_fail_run) (λ _. quiet) (λ _. quiet)))
          (λ f.
            if_cases (IsKept o) p.cancelled (λ _. quiet) (λ _. (omega arith, quiet, omega arith)))

    watch_kept :
        (p : Poll) (g : GateState)
        → IsQuiet g
        → IsPaced o g
        → IsQuiet (watch scale hash_content o (content_of p.content) p.now (nudge o g))
          × IsPaced o (watch scale hash_content o (content_of p.content) p.now (nudge o g))
    watch_kept p g quiet paced = (ground arith, ground arith)

    on_state-IsKept :
        (st : PaneState) (p : Poll) (g : GateState)
        → IsQuiet g
        → IsPaced o g
        → IsKept o (on_state scale hash_content o deadline st p g)
    on_state-IsKept PaneState.idle p g quiet paced = quiet
    on_state-IsKept PaneState.rate_limited p g quiet paced = quiet
    on_state-IsKept PaneState.usage_limited p g quiet paced = quiet
    on_state-IsKept PaneState.awaiting_operator p g quiet paced =
        let w = watch scale hash_content o (content_of p.content) p.now (nudge o g) in
        let (a, b) = watch_kept p g quiet paced in
        if_cases (IsKept o) (leb o.input_stale_threshold (p.now - w.hash_seen_at)) (λ _. a)
          (λ _. cap-IsKept PaneState.awaiting_operator p w a b)
    on_state-IsKept PaneState.working p g quiet paced =
        if_cases (IsKept o) o.working_deliver_immediately (λ _. quiet)
          (λ _. cap-IsKept PaneState.working p g quiet paced)
    on_state-IsKept PaneState.in_copy_mode p g quiet paced =
        cap-IsKept PaneState.in_copy_mode p
          (record g { first_copy_mode_at = stamp p.now g.first_copy_mode_at }) quiet paced
    on_state-IsKept PaneState.at_rest_in_compaction p g quiet paced =
        cap-IsKept PaneState.at_rest_in_compaction p g quiet paced
    on_state-IsKept PaneState.unknown p g quiet paced = cap-IsKept PaneState.unknown p g quiet paced
    on_state-IsKept PaneState.errored p g quiet paced = cap-IsKept PaneState.errored p g quiet paced

    count_query_kept :
        (b : Bool) (g : GateState)
        → IsQuiet g
        → IsPaced o g
        → IsQuiet (count_query b g) × IsPaced o (count_query b g)
    count_query_kept true g quiet paced = (quiet, paced)
    count_query_kept false g quiet paced = (quiet, paced)

    gate_step-IsKept :
        (p : Poll) (g : GateState)
        → IsQuiet g
        → IsPaced o g
        → IsKept o (gate_step scale hash_content o deadline p g)
    unfolding gate_step
    gate_step-IsKept p g quiet paced =
        let q = count_query p.copy_mode_query_failed (counted g) in
        let (a, b) = count_query_kept p.copy_mode_query_failed (counted g) quiet paced in
        if_cases (IsKept o) p.failed (λ _. quiet)
          (λ _.
            if_cases (IsKept o) (leb copy_mode_query_fail_defer_threshold q.copy_mode_fail_run)
              (λ _. a)
              (λ _. on_state-IsKept (trusted_state p.copy_mode_query_failed p.state) p q a b))

    gate_loop-IsKept :
        (ps : List Poll) (g : GateState)
        → IsQuiet g
        → IsPaced o g
        → All (λ d. d ≤ o.poll_interval_max) (gate_loop scale hash_content o deadline ps g).naps
          × IsQuiet (gate_loop scale hash_content o deadline ps g).final
    unfolding gate_loop
    gate_loop-IsKept [] g quiet paced = (tt, quiet)
    gate_loop-IsKept (p ∷ ps) g quiet paced =
        go (gate_step scale hash_content o deadline p g) (gate_step-IsKept p g quiet paced)
          (λ h a b. gate_loop-IsKept ps h a b)
      where
        go :
            (s : GateStep)
            → IsKept o s
            → ((h : GateState)
                → IsQuiet h
                → IsPaced o h
                → All
                    (λ d. d ≤ o.poll_interval_max)
                    (gate_loop scale hash_content o deadline ps h).naps
                  × IsQuiet (gate_loop scale hash_content o deadline ps h).final)
            → All
                (λ d. d ≤ o.poll_interval_max)
                (after_step s (λ h. gate_loop scale hash_content o deadline ps h)).naps
              × IsQuiet (after_step s (λ h. gate_loop scale hash_content o deadline ps h)).final
        go (returns out err h) k rest = (tt, k)
        go (sleeps d h) (a, b, c) rest = let (x, y) = rest h b c in ((a, x), y)

  with_defaults_ordered :
      (opts : GateOpts)
      → (with_defaults opts).poll_interval_min ≤ (with_defaults opts).poll_interval_max
  unfolding with_defaults
  with_defaults_ordered opts = ground arith

  -- In one cycle of the gate the operator is nudged at most once, and no sleep is longer than the
  -- largest poll interval.
  pub observe_gate-nudges :
      (pane : String) (opts : GateOpts) (started : ℕ) (polls : List Poll) (run : GateRun)
      → observe_gate scale hash_content pane opts started polls ≡ some run
      → (run.final.nudges ≤ 1) × All (λ d. d ≤ (with_defaults opts).poll_interval_max) run.naps
  observe_gate-nudges pane opts started polls run h =
      let o = with_defaults opts in
      let (a, b) =
        gate_loop-IsKept o (started + o.max_wait) (with_defaults_ordered opts) polls (first_round o)
          refl (with_defaults_ordered opts) in
      subst (λ (r : GateRun). (r.final.nudges ≤ 1) × All (λ d. d ≤ o.poll_interval_max) r.naps)
        (observe_gate-run scale hash_content pane opts started polls run h)
        (
          IsQuiet-le
              (gate_loop scale hash_content o (started + o.max_wait) polls (first_round o)).final b,
          a,
        )
