-- ===== src/Mailman/Preflight/Ends.antt =====
-- How the checks before the gate end, on every path through them.
use tmux_tell.Common.{
  if◌then◌else◌, ℕ, String, Bool, false, Option, if_cases, ◌&&◌, ◌||◌, not, ltb, str_eq,
}
use tmux_tell.Names.{canonical_name}
use tmux_tell.Store.Tables.{Message, Store}
use tmux_tell.Mailman.Attempt.{ServeOpts}
use tmux_tell.Mailman.Outcome.{OutcomeOpts}
use tmux_tell.Mailman.Panes.{
  PreflightOpts, SessionLookup, PaneName, AgentLookup, SessionResult, Drift, heal, resolve_lookup,
  resolved_in, resolve_session, on_wrong_agent, on_bare_pane, other_pane, drift_check,
  is_stale_session, is_resolved,
}
use tmux_tell.Mailman.Preflight.{
  PreflightAnswers, after_drift, find_pane, after_session, is_unknown, preflight,
}
use tmux_tell.Mailman.Preflight.Holds.{
  Held, Ready, heal-Held, on_stale_session-Ready, recover-Freed, fail_round-Freed, dedupe-Ready,
  liveness_gate-Ready,
}

-- A drift check that lets the message go on has kept it in flight.
abbrev DriftHeld : Store → String → Message → Drift → Type 0
DriftHeld b to m (Drift.proceeds p) = Held b to m p.1
DriftHeld b to m (Drift.drifted reason) = Unit
DriftHeld b to m Drift.no_live_session = Unit

module _ (b : Store) (to : String) (m : Message) (agent : String) (pane : String) (now : ℕ)
    (s : Store) (h : Held b to m s) where
  on_wrong_agent-DriftHeld :
      (l : AgentLookup) → DriftHeld b to m (on_wrong_agent agent l pane now s)
  on_wrong_agent-DriftHeld AgentLookup.lookup_failed = h
  on_wrong_agent-DriftHeld AgentLookup.lookup_ambiguous = tt
  on_wrong_agent-DriftHeld (AgentLookup.found_in p) =
      if_cases (DriftHeld b to m) (other_pane p pane) (λ _. heal-Held b to m agent p pane now s h)
        (λ _. tt)

  on_bare_pane-DriftHeld : (l : AgentLookup) → DriftHeld b to m (on_bare_pane agent l pane now s)
  on_bare_pane-DriftHeld AgentLookup.lookup_failed = tt
  on_bare_pane-DriftHeld AgentLookup.lookup_ambiguous = tt
  on_bare_pane-DriftHeld (AgentLookup.found_in p) =
      if_cases (DriftHeld b to m) (other_pane p pane) (λ _. heal-Held b to m agent p pane now s h)
        (λ _. if_cases (DriftHeld b to m) (str_eq p pane) (λ _. h) (λ _. tt))

  drift_check-DriftHeld :
      (n : PaneName) (l : AgentLookup) → DriftHeld b to m (drift_check agent n l pane now s)
  unfolding drift_check
  drift_check-DriftHeld PaneName.name_unread l = h
  drift_check-DriftHeld PaneName.name_ambiguous l = tt
  drift_check-DriftHeld (PaneName.runs n) l =
      if_cases (DriftHeld b to m) (str_eq n "") (λ _. on_bare_pane-DriftHeld l)
        (λ _.
          if_cases (DriftHeld b to m) (str_eq n agent) (λ _. h) (λ _. on_wrong_agent-DriftHeld l))

  abbrev SessionHeld : SessionResult × String × Store → Type 0
  SessionHeld (r, p, t) = Held b to m t

  resolve_session-Held :
      (c : PreflightOpts) (l : SessionLookup) → SessionHeld (resolve_session c agent l pane now s)
  unfolding resolve_session
  resolve_session-Held c l = if_cases SessionHeld c.drift_check_disabled (λ _. h) (λ _. found l)
    where
      healed : (x : String × Store) → Held b to m x.1 → SessionHeld (resolved_in x)
      healed (p, t) k = k

      found : (l : SessionLookup) → SessionHeld (resolve_lookup agent l pane now s)
      found SessionLookup.no_session = h
      found SessionLookup.session_unread = h
      found (SessionLookup.hosted_in p) =
          if_cases SessionHeld (str_eq p "") (λ _. h)
            (λ _. healed (if str_eq p pane then (pane, s) else heal agent p pane now s) (
              if_cases (λ (x : String × Store). Held b to m x.1) (str_eq p pane) (λ _. h)
                (λ _. heal-Held b to m agent p pane now s h)))

module _ (draws : ℕ → Option String) (now : ℕ) (b : Store) where
  after_drift-Ready :
      (to : String) (c : PreflightOpts) (out : OutcomeOpts) (a : PreflightAnswers) (m : Message)
      (n : ℕ) (pane : String) (s : Store) (d : Drift)
      → Held b to m s
      → DriftHeld b to m d
      → Ready b to m (after_drift draws now c out a m n pane s d)
  after_drift-Ready to c out a m n pane s (Drift.proceeds p) h k =
      liveness_gate-Ready draws now b to c out a m n p k
  after_drift-Ready to c out a m n pane s (Drift.drifted reason) h k =
      if_cases (Ready b to m) c.drift_soft_fail
        (λ _. liveness_gate-Ready draws now b to c out a m n (pane, s) h)
        (λ _. fail_round-Freed draws now b to out m _ s h)
  after_drift-Ready to c out a m n pane s Drift.no_live_session h k =
      fail_round-Freed draws now b to out m _ s h

  find_pane-Ready :
      (to : String) (c : PreflightOpts) (out : OutcomeOpts) (a : PreflightAnswers) (m : Message)
      (n : ℕ) (found : Bool) (pane : String) (s : Store)
      → Held b to m s
      → Ready b to m (find_pane draws now c out a m n found pane s)
  unfolding find_pane
  find_pane-Ready to c out a m n found pane s h =
      if_cases (Ready b to m) (c.drift_check_disabled || found)
        (λ _. dedupe-Ready draws now b to c out.agent a.token_visible m pane n s h)
        (λ _.
          after_drift-Ready to c out a m n pane s
            (drift_check out.agent a.running a.lookup pane now s) h
            (drift_check-DriftHeld b to m out.agent pane now s h a.running a.lookup))

  after_session-Ready :
      (c : PreflightOpts) (o : ServeOpts) (out : OutcomeOpts) (a : PreflightAnswers) (m : Message)
      (n : ℕ) (r : SessionResult) (pane : String) (s : Store)
      → Held b (canonical_name out.agent) m s
      → Ready b (canonical_name out.agent) m (after_session draws now c o out a m n (r, pane, s))
  after_session-Ready c o out a m n r pane s h =
      let to = canonical_name out.agent in
      if_cases (Ready b to m)
        (is_stale_session r && (ltb 0 c.session_stale_threshold && not o.pre_paste_safety_disabled))
        (λ _.
          if_cases (Ready b to m) (is_unknown a.stale_probe)
            (λ _. on_stale_session-Ready b c out.agent m n s h)
            (λ _. find_pane-Ready to c out a m 0 false pane s h))
        (λ _.
          find_pane-Ready to c out a m (if is_stale_session r then n else 0) (is_resolved r) pane s
            h)

  -- The checks before the gate end with the claimed message still the only one in flight, for the paste
  -- in the pane that they found, or with none in flight.
  pub preflight-Ready :
      (c : PreflightOpts) (o : ServeOpts) (out : OutcomeOpts) (a : PreflightAnswers) (m : Message)
      (pane : String) (n : ℕ) (s : Store)
      → Held b (canonical_name out.agent) m s
      → Ready b (canonical_name out.agent) m (preflight draws now c o out a m pane n s)
  unfolding preflight
  preflight-Ready c o out a m pane n s h =
      let to = canonical_name out.agent in
      if_cases (Ready b to m) a.capped (λ _. recover-Freed b out.agent m s h)
        (λ _.
          let x = resolve_session c out.agent a.session pane now s in
          after_session-Ready c o out a m n x.0 x.1 x.2
            (resolve_session-Held b to m out.agent pane now s h c a.session))
