-- ===== src/Mailman/Preflight.antt =====
-- internal/cli/serve.go: from the claim of a message to the gate. The mailman holds a message back at
-- the provider cap, finds the pane by session or by name, refuses a pane that drifted or that hosts a
-- bare shell, and absorbs a duplicate. What tmux, the process table and the provider cap answer is data.
pub mod Holds
pub mod Ends
use Prim.Native.String.{◌++◌}
use tmux_tell.Common.{
  ℕ, suc, String, Bool, true, false, Option, none, some, ◌&&◌, ◌||◌, not, ltb, leb, str_eq,
  if◌then◌else◌, ◌-◌,
}
use tmux_tell.Gate.{PaneState}
use tmux_tell.Store.Tables.{Kind, Reason, Message, Store, Result, ok, err, same_kind}
use tmux_tell.Store.Insert.Operations.{insert_notice}
use tmux_tell.Store.Agents.{set_stuck, upsert_agent}
use tmux_tell.Store.Claim.{recover_delivering}
use tmux_tell.Store.Deliver.{mark_failed, find_dedupe_match, mark_verified_by_dedupe}
use tmux_tell.Mailman.Attempt.{ServeOpts, LoopVars, notice_params, succeeded}
use tmux_tell.Mailman.Outcome.{OutcomeOpts, maybe_insert_failure_notice}
use tmux_tell.Mailman.Panes.{
  PreflightOpts, SessionLookup, PaneName, AgentLookup, other_pane, heal, SessionResult, resolved_in,
  resolve_lookup, resolve_session, is_stale_session, is_resolved, Drift, on_wrong_agent,
  on_bare_pane, drift_check,
}

-- The answers: whether the provider cap is reached; the probe of a stale session and the search for
-- the token of a prior delivery are `none` where they failed.
pub record PreflightAnswers : Type 0 where
  pub capped : Bool
  pub session : SessionLookup
  pub stale_probe : Option PaneState
  pub running : PaneName
  pub lookup : AgentLookup
  pub accepts_paste : Bool
  pub token_visible : Option Bool

-- The pane for the delivery, or `none` where the round is over; the count of stale sessions in a row.
pub record Checked : Type 0 where
  pub pane : Option String
  pub stale_run : ℕ
  pub store : Store

abbrev pub over : ℕ → Store → Checked
over n s = record { pane = none; stale_run = n; store = s }

abbrev pub is_unknown : Option PaneState → Bool
is_unknown (some PaneState.unknown) = true
is_unknown _ = false

-- A stale session with an unknown pane gives the message back, and parks the mailman at the threshold.
unfoldable pub on_stale_session : PreflightOpts → String → ℕ → Store → Checked
on_stale_session c agent n s =
    let t = (recover_delivering agent s).1 in
    if leb c.session_stale_threshold (suc n)
    then over 0 (set_stuck agent "session-stale" t).1
    else over (suc n) t

module _ (draws : ℕ → Option String) (now : ℕ) where
  -- A check that fails the message, and tells its sender.
  unfoldable pub fail_round : OutcomeOpts → Message → String → Store → Store
  fail_round out m reason s =
      maybe_insert_failure_notice draws now out.notify_on_failed out.agent m "failed" reason
        (mark_failed m.public_id (Reason.text reason) now s).1

  -- `insertDedupeNotice`: only for a peer message.
  unfoldable pub insert_dedupe_notice : String → Message → String → Store → Store
  insert_dedupe_notice this m original s =
      if same_kind m.kind Kind.message
      then (insert_notice draws now
          (notice_params this m.from_agent
            (":white_check_mark: Dedupe resolved\n  Replay id: "
              ++ (m.public_id
                  ++ ("\n  Original id: "
                      ++ (original
                          ++ " (now confirmed delivered via scrollback re-verify)\n  Replay dropped; no further action needed."))))
            Kind.dedupe_notice)
          s).1
      else s

  -- The original is confirmed, and the duplicate is failed.
  unfoldable pub absorb : String → Message → String → Store → Store
  unfolding insert_dedupe_notice
  absorb this m original s =
      insert_dedupe_notice this m original
        (mark_failed m.public_id
          (Reason.text
            ("dedupe_absorbed: original " ++ (original ++ " confirmed via scrollback re-verify")))
          now (mark_verified_by_dedupe original s).1).1

  abbrev pub on_match :
      String → Option Bool → Message → Option Message → String → ℕ → Store → Checked
  on_match this visible m none pane n s = record { pane = some pane; stale_run = n; store = s }
  on_match this (some true) m (some prior) pane n s = over n (absorb this m prior.public_id s)
  on_match this (some false) m (some prior) pane n s = record {
    pane = some pane;
    stale_run = n;
    store = s;
  }
  on_match this none m (some prior) pane n s = record { pane = some pane; stale_run = n; store = s }

  unfoldable pub dedupe :
      PreflightOpts → String → Option Bool → Message → String → ℕ → Store → Checked
  unfolding absorb
  dedupe c this visible m pane n s =
      if ltb 0 c.dedupe_window
      then on_match this visible m
          (find_dedupe_match m.from_agent m.to_agent m.body (now - c.dedupe_window) s) pane n s
      else record { pane = some pane; stale_run = n; store = s }

  -- The bare-shell gate on the foreground process, before the search for a duplicate.
  unfoldable pub liveness_gate :
      PreflightOpts → OutcomeOpts → PreflightAnswers → Message → ℕ → String × Store → Checked
  unfolding fail_round dedupe
  liveness_gate c out a m n (pane, s) =
      if a.accepts_paste
      then dedupe c out.agent a.token_visible m pane n s
      else over n (
          fail_round out m
            "no_live_session: target pane hosts no live agent process (bare shell / stale title); delivery blocked to prevent bare-shell paste (#761)"
            s)

  abbrev pub after_drift :
      PreflightOpts
      → OutcomeOpts
      → PreflightAnswers
      → Message
      → ℕ
      → String
      → Store
      → Drift
      → Checked
  after_drift c out a m n pane s (Drift.proceeds p) = liveness_gate c out a m n p
  after_drift c out a m n pane s (Drift.drifted reason) =
      if c.drift_soft_fail
      then liveness_gate c out a m n (pane, s)
      else over n (
          fail_round out m
            (reason
              ++ ": delivery aborted under fail-loud default; set --drift-soft-fail to deliver-anyway")
            s)
  after_drift c out a m n pane s Drift.no_live_session = over n (
      fail_round out m
        "no_live_session: addressed session not present in any pane; delivery blocked to prevent bare-shell paste (#626)"
        s)

  unfoldable pub find_pane :
      PreflightOpts → OutcomeOpts → PreflightAnswers → Message → ℕ → Bool → String → Store → Checked
  unfolding liveness_gate drift_check
  find_pane c out a m n found pane s =
      if c.drift_check_disabled || found
      then dedupe c out.agent a.token_visible m pane n s
      else after_drift c out a m n pane s (drift_check out.agent a.running a.lookup pane now s)

  abbrev pub after_session :
      PreflightOpts
      → ServeOpts
      → OutcomeOpts
      → PreflightAnswers
      → Message
      → ℕ
      → SessionResult × String × Store
      → Checked
  after_session c o out a m n (r, pane, s) =
      if is_stale_session r && (ltb 0 c.session_stale_threshold && not o.pre_paste_safety_disabled)
      then (if is_unknown a.stale_probe
          then on_stale_session c out.agent n s
          else find_pane c out a m 0 false pane s)
      else find_pane c out a m (if is_stale_session r then n else 0) (is_resolved r) pane s

  -- From the claim to the gate.
  unfoldable pub preflight :
      PreflightOpts
      → ServeOpts
      → OutcomeOpts
      → PreflightAnswers
      → Message
      → String
      → ℕ
      → Store
      → Checked
  unfolding resolve_session on_stale_session find_pane
  preflight c o out a m pane n s =
      if a.capped
      then over n (recover_delivering out.agent s).1
      else after_session c o out a m n (resolve_session c out.agent a.session pane now s)
