-- ===== src/Gate/Ends.antt =====
-- The loop of `ObserveGate` ends once a poll finds the deadline over.
use tmux_tell.Common.{
  ℕ, ◌+◌, ◌-◌, ◌<◌, String, Option, none, some, List, [], ◌∷◌, ◌≡◌, inl, inr, arith, leb, ltb,
  if_cases, In, subst,
}
use tmux_tell.Gate.Safety.{observe_gate-run}
use tmux_tell.Gate.{
  PaneState, GateOpts, Poll, GateError, GateOutcome, GateState, GateStep, returns, sleeps,
  content_of, gate_step, gate_loop, GateRun, copy_mode_query_fail_defer_threshold, is_in_copy_mode,
  trusted_state, count_query, counted, cap, on_state, watch, nudge, stamp, after_step, observe_gate,
  with_defaults, first_round,
}

-- The step ends the loop.
abbrev Returns : GateStep → Type 0
Returns (returns out err h) = Unit
Returns (sleeps d h) = ⊥

abbrev pub Ended : Option (GateOutcome × Option GateError) → Type 0
Ended none = ⊥
Ended (some r) = Unit

module _ (scale : ℕ → ℕ) (hash_content : String → String) where
  module _ (o : GateOpts) (deadline : ℕ) where
    cap-Returns :
        (st : PaneState) (p : Poll) (g : GateState)
        → deadline < p.checked_at
        → Returns (cap scale hash_content o deadline st p g)
    cap-Returns st p g late =
        if_cases Returns (ltb deadline p.checked_at)
          (λ _.
            if_cases Returns (is_in_copy_mode st) (λ _. tt)
              (λ _. if_cases Returns (ltb 0 g.copy_mode_fail_run) (λ _. tt) (λ _. tt)))
          (λ f. absurd (ground arith))

    on_state-Returns :
        (st : PaneState) (p : Poll) (g : GateState)
        → deadline < p.checked_at
        → Returns (on_state scale hash_content o deadline st p g)
    on_state-Returns PaneState.idle p g late = tt
    on_state-Returns PaneState.rate_limited p g late = tt
    on_state-Returns PaneState.usage_limited p g late = tt
    on_state-Returns PaneState.awaiting_operator p g late =
        let w = watch scale hash_content o (content_of p.content) p.now (nudge o g) in
        if_cases Returns (leb o.input_stale_threshold (p.now - w.hash_seen_at)) (λ _. tt)
          (λ _. cap-Returns PaneState.awaiting_operator p w late)
    on_state-Returns PaneState.working p g late =
        if_cases Returns o.working_deliver_immediately (λ _. tt)
          (λ _. cap-Returns PaneState.working p g late)
    on_state-Returns PaneState.in_copy_mode p g late =
        cap-Returns PaneState.in_copy_mode p
          (record g { first_copy_mode_at = stamp p.now g.first_copy_mode_at }) late
    on_state-Returns PaneState.at_rest_in_compaction p g late =
        cap-Returns PaneState.at_rest_in_compaction p g late
    on_state-Returns PaneState.unknown p g late = cap-Returns PaneState.unknown p g late
    on_state-Returns PaneState.errored p g late = cap-Returns PaneState.errored p g late

    gate_step-Returns :
        (p : Poll) (g : GateState)
        → deadline < p.checked_at
        → Returns (gate_step scale hash_content o deadline p g)
    unfolding gate_step
    gate_step-Returns p g late =
        if_cases Returns p.failed (λ _. tt)
          (λ _.
            let q = count_query p.copy_mode_query_failed (counted g) in
            if_cases Returns (leb copy_mode_query_fail_defer_threshold q.copy_mode_fail_run)
              (λ _. tt)
              (λ _. on_state-Returns (trusted_state p.copy_mode_query_failed p.state) p q late))

    gate_loop-Ended :
        (ps : List Poll) (p : Poll) (g : GateState)
        → In p ps
        → deadline < p.checked_at
        → Ended (gate_loop scale hash_content o deadline ps g).outcome
    unfolding gate_loop
    gate_loop-Ended [] p g i late = absurd i
    gate_loop-Ended (q ∷ ps) p g (inl e) late =
        now (gate_step scale hash_content o deadline q g)
          (gate_step-Returns q g (subst (λ (w : Poll). deadline < w.checked_at) e late))
      where
        now :
            (s : GateStep)
            → Returns s
            → Ended (after_step s (λ h. gate_loop scale hash_content o deadline ps h)).outcome
        now (returns out err h) r = tt
        now (sleeps d h) r = absurd r
    gate_loop-Ended (q ∷ ps) p g (inr i) late =
        later (gate_step scale hash_content o deadline q g) (λ h. gate_loop-Ended ps p h i late)
      where
        later :
            (s : GateStep)
            → ((h : GateState) → Ended (gate_loop scale hash_content o deadline ps h).outcome)
            → Ended (after_step s (λ h. gate_loop scale hash_content o deadline ps h)).outcome
        later (returns out err h) r = tt
        later (sleeps d h) r = r h

  -- Where the clock of one poll has passed the deadline, the gate returns an outcome; it does not wait on.
  pub observe_gate-Ended :
      (pane : String) (opts : GateOpts) (started : ℕ) (polls : List Poll) (p : Poll) (run : GateRun)
      → observe_gate scale hash_content pane opts started polls ≡ some run
      → In p polls
      → started + (with_defaults opts).max_wait < p.checked_at
      → Ended run.outcome
  observe_gate-Ended pane opts started polls p run h i late =
      let o = with_defaults opts in
      subst (λ (r : GateRun). Ended r.outcome)
        (observe_gate-run scale hash_content pane opts started polls run h)
        (gate_loop-Ended o (started + o.max_wait) polls p (first_round o) i late)
