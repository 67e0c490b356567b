-- ===== src/Mailman/Attempt/Pastes.antt =====
-- When the mailman pastes, and what it leaves in the store when it does not.
use tmux_tell.Common.{
  ℕ, String, Bool, str_eq, true, false, Option, none, some, ◌≡◌, ◌⊎◌, inl, inr, refl, ap, ◌∙◌,
  arith, if_cases, if◌then◌else◌, count_rows, ◌&&◌, ltb, leb,
}
use tmux_tell.Names.{canonical_name}
use tmux_tell.Gate.{
  PaneState, GateError, GateOutcome, is_paste_unsafe, is_paste_unsafe_forced, is_limited,
}
use tmux_tell.Store.Tables.{Kind, Message, Store}
use tmux_tell.Store.Insert.Notices.{insert_notice-in_flight}
use tmux_tell.Store.Claim.{recover_delivering, delivering_to}
use tmux_tell.Store.Claim.Recover.{recover_delivering-Recovers}
use tmux_tell.Store.Agents.{set_stuck}
use tmux_tell.Mailman.Attempt.{
  ServeOpts, LoopVars, Verdict, Prepared, Answers, ProbeFailure, unsafe_for, gate_verdict,
  pre_paste_check, on_pane_gone, attempt, after_verdict, clear_limits, flush_draft, Flush, archives,
  notice_params, render_stranded_draft_body, count_pane_fail, no_pane_fails, archive_stranded_draft,
  flushed_after,
}

-- The gate lets the message pass: it returned no error, or a limit that the message is forced through, or
-- that its time was over, or a failure that is not the end of the mailman.
abbrev pub Passed : Message → Bool → Option GateError → Type 0
Passed m canceled none = Unit
Passed m canceled (some GateError.max_wait_exceeded) = Unit
Passed m canceled (some GateError.rate_limited) = m.force_rate_limited ≡ true
Passed m canceled (some GateError.usage_limited) = m.force_rate_limited ≡ true
Passed m canceled (some GateError.agent_state_failed) = canceled ≡ false
Passed m canceled (some GateError.context_done) = canceled ≡ false
Passed m canceled (some GateError.copy_mode_unsafe) = ⊥
Passed m canceled (some GateError.copy_mode_query_failed) = ⊥

-- The last probe answered, with a state in which a paste spoils nothing.
abbrev pub IsPasteable : Message → PaneState → Option ProbeFailure → Type 0
IsPasteable m st failure =
    (failure ≡ none)
    × ((st ≡ PaneState.idle)
        ⊎ (st ≡ PaneState.working)
        ⊎ ((m.force_rate_limited ≡ true) × (is_limited st ≡ true)))

unsafe_for-IsPasteable :
    (m : Message) (st : PaneState)
    → unsafe_for m st ≡ false
    → (st ≡ PaneState.idle)
      ⊎ (st ≡ PaneState.working)
      ⊎ ((m.force_rate_limited ≡ true) × (is_limited st ≡ true))
unfolding is_paste_unsafe is_paste_unsafe_forced
unsafe_for-IsPasteable m PaneState.idle h = inl refl
unsafe_for-IsPasteable m PaneState.working h = inr (inl refl)
unsafe_for-IsPasteable m PaneState.rate_limited h = inr (inr (ground arith, refl))
unsafe_for-IsPasteable m PaneState.usage_limited h = inr (inr (ground arith, refl))
unsafe_for-IsPasteable m PaneState.unknown h = absurd (ground arith)
unsafe_for-IsPasteable m PaneState.awaiting_operator h = absurd (ground arith)
unsafe_for-IsPasteable m PaneState.at_rest_in_compaction h = absurd (ground arith)
unsafe_for-IsPasteable m PaneState.in_copy_mode h = absurd (ground arith)
unsafe_for-IsPasteable m PaneState.errored h = absurd (ground arith)

-- What an attempt leaves, by its verdict.
abbrev pub Settles : ServeOpts → Answers → Message → Store → Verdict → Store → Type 0
Settles o a m s Verdict.goes_on t =
    ((o.pre_paste_safety_disabled ≡ true) ⊎ IsPasteable m a.probe a.probe_failure)
    × ((o.gate_disabled ≡ true) ⊎ Passed m a.canceled a.gate_error)
    × (count_rows (delivering_to (canonical_name o.agent)) t.messages
        ≡ count_rows (delivering_to (canonical_name o.agent)) s.messages)
Settles o a m s Verdict.stops t = (a.canceled ≡ true) × (t ≡ s)
Settles o a m s Verdict.parks t = count_rows (delivering_to (canonical_name o.agent)) t.messages ≡ 0
Settles o a m s (Verdict.retries_after d) t =
    count_rows (delivering_to (canonical_name o.agent)) t.messages ≡ 0

abbrev Ready : ServeOpts → Answers → Message → Store → Prepared → Type 0
Ready o a m s r = Settles o a m s r.verdict r.store

recovered :
    (agent : String) (s : Store)
    → count_rows (delivering_to (canonical_name agent)) (recover_delivering agent s).1.messages ≡ 0
recovered agent s = (recover_delivering-Recovers agent s).none_left

pub set_stuck-messages :
    (agent reason : String) (s : Store) → (set_stuck agent reason s).1.messages ≡ s.messages
unfolding set_stuck
set_stuck-messages agent reason s = ground arith

on_pane_gone-Ready :
    (o : ServeOpts) (a : Answers) (m : Message) (v : LoopVars) (s t : Store)
    → count_rows (delivering_to (canonical_name o.agent)) t.messages ≡ 0
    → Ready o a m s (on_pane_gone o m v t)
unfolding on_pane_gone
on_pane_gone-Ready o a m v s t h =
    let w = count_pane_fail m.public_id v in
    if_cases (Ready o a m s)
      (ltb 0 o.stuck_threshold && leb o.stuck_threshold w.consecutive_pane_fails)
      (λ _.
        ap (count_rows (delivering_to (canonical_name o.agent)))
          (set_stuck-messages o.agent "pane-not-found" t)
        ∙ h)
      (λ _. h)

pre_paste_check-Ready :
    (o : ServeOpts) (a : Answers) (m : Message) (v : LoopVars) (s t : Store)
    → (o.gate_disabled ≡ true) ⊎ Passed m a.canceled a.gate_error
    → count_rows (delivering_to (canonical_name o.agent)) t.messages
      ≡ count_rows (delivering_to (canonical_name o.agent)) s.messages
    → Ready o a m s (pre_paste_check o a.probe a.probe_failure m v t)
unfolding pre_paste_check
pre_paste_check-Ready o a m v s t g n =
    if_cases (Ready o a m s) o.pre_paste_safety_disabled (λ d. (inl d, g, n))
      (λ _. probed a.probe_failure refl)
  where
    probed :
        (f : Option ProbeFailure)
        → a.probe_failure ≡ f
        → Ready o a m s (elim f [
          | some ProbeFailure.pane_gone ↦ on_pane_gone o m v (recover_delivering o.agent t).1
          | some ProbeFailure.other_failure ↦ record {
            verdict = Verdict.retries_after 0;
            vars = no_pane_fails v;
            store = (recover_delivering o.agent t).1;
          }
          | none ↦
              if unsafe_for m a.probe
              then record {
                verdict = Verdict.retries_after 0;
                vars = no_pane_fails v;
                store = (recover_delivering o.agent t).1;
              }
              else record { verdict = Verdict.goes_on; vars = no_pane_fails v; store = t }
        ])
    probed (some ProbeFailure.pane_gone) e =
        on_pane_gone-Ready o a m v s (recover_delivering o.agent t).1 (recovered o.agent t)
    probed (some ProbeFailure.other_failure) e = recovered o.agent t
    probed none e =
        if_cases (Ready o a m s) (unsafe_for m a.probe) (λ _. recovered o.agent t)
          (λ f. (inr (e, unsafe_for-IsPasteable m a.probe f), g, n))

module _ (wake_delay : ℕ → ℕ → ℕ) (draws : ℕ → Option String) (now : ℕ) (binary_name : String) where
  flushed_after-in_flight :
      (agent to content : String) (pane trigger : String) (s : Store)
      → count_rows
          (delivering_to to)
          (flushed_after content
            (archive_stranded_draft draws now binary_name agent pane trigger content s)).1.messages
        ≡ count_rows (delivering_to to) s.messages
  unfolding archive_stranded_draft
  flushed_after-in_flight agent to content pane trigger s =
      insert_notice-in_flight draws now to
        (notice_params agent agent (render_stranded_draft_body binary_name pane trigger content)
          Kind.stranded_draft)
        s

  pub flush_draft-in_flight :
      (agent pane to : String) (fresh : Option String) (out : GateOutcome) (m : Message) (s : Store)
      → count_rows
          (delivering_to to)
          (flush_draft draws now binary_name agent pane fresh out m s).1.messages
        ≡ count_rows (delivering_to to) s.messages
  unfolding flush_draft
  flush_draft-in_flight agent pane to none out m s =
      if_cases
        (λ (x : Flush × Store).
          count_rows (delivering_to to) x.1.messages ≡ count_rows (delivering_to to) s.messages)
        (archives out m)
        (λ _. flushed_after-in_flight agent to out.input_content pane m.public_id s) (λ _. refl)
  flush_draft-in_flight agent pane to (some c) out m s =
      if_cases
        (λ (x : Flush × Store).
          count_rows (delivering_to to) x.1.messages ≡ count_rows (delivering_to to) s.messages)
        (archives out m)
        (λ _.
          if_cases
            (λ (x : Flush × Store).
              count_rows (delivering_to to) x.1.messages ≡ count_rows (delivering_to to) s.messages)
            (str_eq c "") (λ _. refl) (λ _. flushed_after-in_flight agent to c pane m.public_id s))
        (λ _. refl)

  verdict-Ready :
      (o : ServeOpts) (a : Answers) (m : Message) (s : Store) (e : Option GateError) (v : LoopVars)
      (next : Prepared)
      → a.gate_error ≡ e
      → (Passed m a.canceled a.gate_error → Ready o a m s next)
      → Ready o a m s
          (after_verdict o (gate_verdict wake_delay o a.canceled a.outcome e m v) s next)
  unfolding gate_verdict
  verdict-Ready o a m s none v next h k = k (rw h tt)
  verdict-Ready o a m s (some GateError.usage_limited) v next h k =
      if_cases (λ (g : Verdict × LoopVars). Ready o a m s (after_verdict o g s next))
        m.force_rate_limited (λ f. k (rw h f)) (λ _. recovered o.agent s)
  verdict-Ready o a m s (some GateError.rate_limited) v next h k =
      if_cases (λ (g : Verdict × LoopVars). Ready o a m s (after_verdict o g s next))
        m.force_rate_limited (λ f. k (rw h f)) (λ _. recovered o.agent s)
  verdict-Ready o a m s (some GateError.copy_mode_unsafe) v next h k = recovered o.agent s
  verdict-Ready o a m s (some GateError.copy_mode_query_failed) v next h k = recovered o.agent s
  verdict-Ready o a m s (some GateError.max_wait_exceeded) v next h k = k (rw h tt)
  verdict-Ready o a m s (some GateError.agent_state_failed) v next h k =
      if_cases (λ (w : Verdict). Ready o a m s (after_verdict o (w, v) s next)) a.canceled
        (λ c. (c, refl)) (λ f. k (rw h f))
  verdict-Ready o a m s (some GateError.context_done) v next h k =
      if_cases (λ (w : Verdict). Ready o a m s (after_verdict o (w, v) s next)) a.canceled
        (λ c. (c, refl)) (λ f. k (rw h f))

  -- From the gate on, an attempt on a claimed message ends in one of four ways. It pastes: then the last
  -- probe answered with a harmless state, or the check is off; and the gate is off, or it returned no
  -- error, or that its time was over, or a limit that the message is forced through, or a failure or the
  -- end of its context without being canceled, so not the error of a copy mode; and as many messages are
  -- in flight as before. It leaves the loop, canceled, and the store stays. Or it gives up for now, parked
  -- or not, and no message of the agent is left in flight.
  pub attempt-Settles :
      (o : ServeOpts) (pane : String) (a : Answers) (m : Message) (v : LoopVars) (s : Store)
      → Settles o a m s
          (attempt wake_delay draws now binary_name o pane a m v s).verdict
          (attempt wake_delay draws now binary_name o pane a m v s).store
  unfolding attempt
  attempt-Settles o pane a m v s =
      if_cases (Ready o a m s) o.gate_disabled (λ d. pre_paste_check-Ready o a m v s s (inl d) refl)
        (λ _.
          let g = gate_verdict wake_delay o a.canceled a.outcome a.gate_error m v in
          let t = (flush_draft draws now binary_name o.agent pane a.fresh a.outcome m s).1 in
          verdict-Ready o a m s a.gate_error v
            (pre_paste_check o a.probe a.probe_failure m (clear_limits m g.1) t) refl
            (λ p.
              pre_paste_check-Ready o a m (clear_limits m g.1) s t (inr p) (
                flush_draft-in_flight o.agent pane (canonical_name o.agent) a.fresh a.outcome m s)))
