-- ===== src/Gate/Safety.antt =====
-- What an outcome of `ObserveGate` says of the poll on which the gate decided.
use tmux_tell.Common.{
  ℕ, suc, ◌+◌, ◌-◌, ◌≤◌, ◌<◌, String, Bool, true, false, Option, none, some, List, [], ◌∷◌, ◌++◌,
  ◌≡◌, ◌≢◌, ◌⊎◌, inl, inr, refl, arith, leb, ltb, length, if_cases, ap, subst, sym, ◌∙◌,
}
use tmux_tell.Gate.{
  PaneState, GateOpts, Poll, GateError, GateOutcome, GateState, GateStep, returns, sleeps,
  content_of, gate_step, gate_loop, observe_gate, with_defaults, first_round, GateRun,
  copy_mode_query_fail_defer_threshold, is_in_copy_mode, counted, cap, on_state, on_awaiting,
  on_query, after_step, past_deadline, watch, nudge, stamp,
}

-- Why a paste may follow: the query of the copy mode was answered, and the pane was idle, or working
-- where that was opted in, or held a draft, which the outcome carries.
abbrev pub IsOpen : GateOpts → Poll → GateOutcome → Type 0
IsOpen o p out =
    (p.copy_mode_query_failed ≡ false)
    × ((p.state ≡ PaneState.idle)
        ⊎ ((p.state ≡ PaneState.working) × (o.working_deliver_immediately ≡ true))
        ⊎ ((p.state ≡ PaneState.awaiting_operator)
            × (out.stale ≡ true)
            × (out.input_content ≡ content_of p.content)))

-- The poll justifies the outcome.
abbrev pub Justifies : GateOpts → ℕ → Poll → GateOutcome → Option GateError → Type 0
Justifies o deadline p out none = IsOpen o p out
Justifies o deadline p out (some GateError.agent_state_failed) = p.failed ≡ true
Justifies o deadline p out (some GateError.copy_mode_query_failed) = p.copy_mode_query_failed ≡ true
Justifies o deadline p out (some GateError.rate_limited) =
    (p.copy_mode_query_failed ≡ false)
    × (p.state ≡ PaneState.rate_limited)
    × (out.retry_after ≡ p.retry_after)
    × (out.banner ≡ p.marker)
Justifies o deadline p out (some GateError.usage_limited) =
    (p.copy_mode_query_failed ≡ false)
    × (p.state ≡ PaneState.usage_limited)
    × (out.banner ≡ p.marker)
Justifies o deadline p out (some GateError.copy_mode_unsafe) =
    (p.copy_mode_query_failed ≡ false)
    × (p.state ≡ PaneState.in_copy_mode)
    × (deadline < p.checked_at)
Justifies o deadline p out (some GateError.max_wait_exceeded) =
    (p.copy_mode_query_failed ≡ false)
    × (p.state ≢ PaneState.in_copy_mode)
    × (deadline < p.checked_at)
Justifies o deadline p out (some GateError.context_done) =
    (p.cancelled ≡ true) × (p.checked_at ≤ deadline)

-- Some poll justifies the outcome, and it is the one that the outcome counts as the last.
abbrev pub Decided : GateOpts → ℕ → List Poll → ℕ → Option (GateOutcome × Option GateError) → Type 0
Decided o deadline ps n none = Unit
Decided o deadline ps n (some (out, err)) =
    (before : List Poll) × (p : Poll) × (after : List Poll) × (ps ≡ before ++ p ∷ after)
    × (out.iterations ≡ n + suc (length before))
    × Justifies o deadline p out err

-- The step is justified by its poll, and counts it as the round n.
abbrev OnStep : GateOpts → ℕ → Poll → ℕ → GateStep → Type 0
OnStep o deadline p n (returns out err h) = Justifies o deadline p out err × (out.iterations ≡ n)
OnStep o deadline p n (sleeps d h) = h.iterations ≡ n

is_in_copy_mode-eq : (s : PaneState) → is_in_copy_mode s ≡ true → s ≡ PaneState.in_copy_mode
is_in_copy_mode-eq s h = ground arith

is_in_copy_mode-ne : (s : PaneState) → is_in_copy_mode s ≡ false → s ≢ PaneState.in_copy_mode
is_in_copy_mode-ne s h e = absurd (ground (arith, ap is_in_copy_mode e))

module _ (scale : ℕ → ℕ) (hash_content : String → String) where
  module _ (o : GateOpts) (deadline : ℕ) where
    past_deadline-OnStep :
        (st : PaneState) (p : Poll) (g : GateState)
        → p.state ≡ st
        → deadline < p.checked_at
        → p.copy_mode_query_failed ≡ false
        → g.copy_mode_fail_run ≡ 0
        → OnStep o deadline p g.iterations (past_deadline st p g)
    past_deadline-OnStep st p g s late ok run =
        if_cases (OnStep o deadline p g.iterations) (is_in_copy_mode st)
          (λ t. ((ok, s ∙ is_in_copy_mode-eq st t, late), refl))
          (λ f. rw run ((ok, (λ e. is_in_copy_mode-ne st f (sym s ∙ e)), late), refl))

    cap-OnStep :
        (st : PaneState) (p : Poll) (g : GateState)
        → p.state ≡ st
        → p.copy_mode_query_failed ≡ false
        → g.copy_mode_fail_run ≡ 0
        → OnStep o deadline p g.iterations (cap scale hash_content o deadline st p g)
    cap-OnStep st p g s ok run =
        if_cases (OnStep o deadline p g.iterations) (ltb deadline p.checked_at)
          (λ t. past_deadline-OnStep st p g s (ground arith) ok run)
          (λ f.
            if_cases (OnStep o deadline p g.iterations) p.cancelled (λ c. ((c, ground arith), refl))
              (λ _. refl))

    -- A poll whose query failed, below the threshold.
    unread-OnStep :
        (p : Poll) (g : GateState)
        → p.copy_mode_query_failed ≡ true
        → 0 < g.copy_mode_fail_run
        → OnStep o deadline p g.iterations (cap scale hash_content o deadline PaneState.unknown p g)
    unread-OnStep p g bad run =
        if_cases (OnStep o deadline p g.iterations) (ltb deadline p.checked_at)
          (λ t.
            if_cases (OnStep o deadline p g.iterations) (ltb 0 g.copy_mode_fail_run)
              (λ _. (bad, refl)) (λ z. absurd (ground arith)))
          (λ f.
            if_cases (OnStep o deadline p g.iterations) p.cancelled (λ c. ((c, ground arith), refl))
              (λ _. refl))

    watch_keeps :
        (p : Poll) (g : GateState)
        → ((watch scale hash_content o (content_of p.content) p.now (nudge o g)).iterations
            ≡ g.iterations)
          × ((watch scale hash_content o
                (content_of p.content)
                p.now
                (nudge o g)).copy_mode_fail_run
              ≡ g.copy_mode_fail_run)
    watch_keeps p g = (ground arith, ground arith)

    on_awaiting-OnStep :
        (p : Poll) (g : GateState)
        → p.state ≡ PaneState.awaiting_operator
        → p.copy_mode_query_failed ≡ false
        → g.copy_mode_fail_run ≡ 0
        → OnStep o deadline p g.iterations (on_awaiting scale hash_content o deadline p g)
    on_awaiting-OnStep p g s ok run =
        let w = watch scale hash_content o (content_of p.content) p.now (nudge o g) in
        let (i, k) = watch_keeps p g in
        if_cases (OnStep o deadline p g.iterations)
          (leb o.input_stale_threshold (p.now - w.hash_seen_at))
          (λ _. ((ok, inr (inr (s, refl, refl))), i))
          (λ _.
            subst
              (λ (n : ℕ).
                OnStep o deadline p n
                  (cap scale hash_content o deadline PaneState.awaiting_operator p w))
              i (cap-OnStep PaneState.awaiting_operator p w s ok (k ∙ run)))

    -- Every branch of the switch, where the query was answered.
    on_state-OnStep :
        (st : PaneState) (p : Poll) (g : GateState)
        → p.state ≡ st
        → p.copy_mode_query_failed ≡ false
        → g.copy_mode_fail_run ≡ 0
        → OnStep o deadline p g.iterations (on_state scale hash_content o deadline st p g)
    on_state-OnStep PaneState.idle p g s ok run = ((ok, inl s), refl)
    on_state-OnStep PaneState.awaiting_operator p g s ok run = on_awaiting-OnStep p g s ok run
    on_state-OnStep PaneState.working p g s ok run =
        if_cases (OnStep o deadline p g.iterations) o.working_deliver_immediately
          (λ w. ((ok, inr (inl (s, w))), refl)) (λ _. cap-OnStep PaneState.working p g s ok run)
    on_state-OnStep PaneState.rate_limited p g s ok run = ((ok, s, refl, refl), refl)
    on_state-OnStep PaneState.usage_limited p g s ok run = ((ok, s, refl), refl)
    on_state-OnStep PaneState.in_copy_mode p g s ok run =
        cap-OnStep PaneState.in_copy_mode p
          (record g { first_copy_mode_at = stamp p.now g.first_copy_mode_at }) s ok run
    on_state-OnStep PaneState.at_rest_in_compaction p g s ok run =
        cap-OnStep PaneState.at_rest_in_compaction p g s ok run
    on_state-OnStep PaneState.unknown p g s ok run = cap-OnStep PaneState.unknown p g s ok run
    on_state-OnStep PaneState.errored p g s ok run = cap-OnStep PaneState.errored p g s ok run

    on_query-OnStep :
        (b : Bool) (p : Poll) (g : GateState)
        → p.copy_mode_query_failed ≡ b
        → OnStep o deadline p g.iterations (on_query scale hash_content o deadline b p g)
    on_query-OnStep true p g bad =
        if_cases (OnStep o deadline p g.iterations)
          (leb copy_mode_query_fail_defer_threshold (suc g.copy_mode_fail_run)) (λ _. (bad, refl))
          (λ _.
            unread-OnStep p (record g { copy_mode_fail_run = suc g.copy_mode_fail_run }) bad
              (omega arith))
    on_query-OnStep false p g ok =
        on_state-OnStep p.state p (record g { copy_mode_fail_run = 0 }) refl ok refl

    gate_step-OnStep :
        (p : Poll) (g : GateState)
        → OnStep o deadline p (suc g.iterations) (gate_step scale hash_content o deadline p g)
    unfolding gate_step
    gate_step-OnStep p g =
        if_cases (OnStep o deadline p (suc g.iterations)) p.failed (λ t. (t, refl))
          (λ _. on_query-OnStep p.copy_mode_query_failed p (counted g) refl)

    Decided-later :
        (p : Poll) (ps : List Poll) (n m : ℕ) (r : Option (GateOutcome × Option GateError))
        → m ≡ suc n
        → Decided o deadline ps m r
        → Decided o deadline (p ∷ ps) n r
    Decided-later p ps n m none e d = tt
    Decided-later p ps n m (some (out, err)) e (before, q, after, s, i, j) =
        (p ∷ before, q, after, ap (λ (l : List Poll). p ∷ l) s, omega arith, j)

    gate_loop-Decided :
        (ps : List Poll) (g : GateState)
        → Decided o deadline ps g.iterations (gate_loop scale hash_content o deadline ps g).outcome
    unfolding gate_loop
    gate_loop-Decided [] g = tt
    gate_loop-Decided (p ∷ ps) g =
        first (gate_step scale hash_content o deadline p g) (gate_step-OnStep p g)
          (λ h. gate_loop-Decided ps h)
      where
        first :
            (s : GateStep)
            → OnStep o deadline p (suc g.iterations) s
            → ((h : GateState)
                → Decided o deadline ps h.iterations
                    (gate_loop scale hash_content o deadline ps h).outcome)
            → Decided o deadline
                (p ∷ ps)
                g.iterations
                (after_step s (λ h. gate_loop scale hash_content o deadline ps h)).outcome
        first (returns out err h) (j, i) rest = ([], p, ps, refl, omega arith, j)
        first (sleeps d h) i rest = Decided-later p ps g.iterations h.iterations _ i (rest h)

  pub observe_gate-run :
      (pane : String) (opts : GateOpts) (started : ℕ) (polls : List Poll) (run : GateRun)
      → observe_gate scale hash_content pane opts started polls ≡ some run
      → gate_loop scale hash_content
          (with_defaults opts)
          (started + (with_defaults opts).max_wait)
          polls
          (first_round (with_defaults opts))
        ≡ run
  unfolding observe_gate
  observe_gate-run pane opts started polls run h = ground arith

  -- Every outcome of the gate is justified by the poll that it counts as its last: a paste follows on an
  -- idle pane, on a working one where that is opted in, or on a stale draft, and only where the query of
  -- the copy mode was answered; past the deadline it follows on any answered poll that is not in copy
  -- mode; and each refusal names what that poll saw.
  pub observe_gate-Decided :
      (pane : String) (opts : GateOpts) (started : ℕ) (polls : List Poll) (run : GateRun)
      → observe_gate scale hash_content pane opts started polls ≡ some run
      → Decided (with_defaults opts) (started + (with_defaults opts).max_wait) polls 0 run.outcome
  observe_gate-Decided pane opts started polls run h =
      let o = with_defaults opts in
      let q = observe_gate-run pane opts started polls run h in
      subst (λ (r : GateRun). Decided o (started + o.max_wait) polls 0 r.outcome) q
        (gate_loop-Decided o (started + o.max_wait) polls (first_round o))
