-- ===== src/Mailman/Panes.antt =====
-- internal/cli/serve.go: the pane for a delivery. The registered session is looked up first, and else
-- the name of what runs in the pane; the registry follows an agent that moved. What the process table
-- and tmux answer is data.
use tmux_tell.Common.{ℕ, String, Bool, true, false, ◌&&◌, not, str_eq, if◌then◌else◌}
use tmux_tell.Store.Tables.{Store}
use tmux_tell.Store.Agents.{upsert_agent}
use tmux_tell.Mailman.Attempt.{succeeded}

-- The options of the loop that these checks read.
pub record PreflightOpts : Type 0 where
  pub drift_check_disabled : Bool
  pub drift_soft_fail : Bool
  pub session_stale_threshold : ℕ
  pub dedupe_window : ℕ

-- The registered session: none, a failed lookup, or the pane that hosts it, "" if none does.
pub data SessionLookup : Type 0 where
  no_session session_unread : SessionLookup
  hosted_in : String → SessionLookup

-- What runs in the pane: unread, several canonical names, or a name, "" if there is none.
pub data PaneName : Type 0 where
  name_unread name_ambiguous : PaneName
  runs : String → PaneName

-- Where the agent is: a failed lookup, several canonical names, or a pane, "" if there is none.
pub data AgentLookup : Type 0 where
  lookup_failed lookup_ambiguous : AgentLookup
  found_in : String → AgentLookup

abbrev pub other_pane : String → String → Bool
other_pane new pane = not (str_eq new "") && not (str_eq new pane)

-- The registry follows the agent; where it refuses, the mailman keeps the pane that it had.
unfoldable pub heal : String → String → String → ℕ → Store → String × Store
heal agent new pane now s =
    let (r, t) = upsert_agent agent new now s in (if succeeded r then new else pane, t)

pub data SessionResult : Type 0 where
  resolved unresolved stale : SessionResult

abbrev pub resolved_in : String × Store → SessionResult × String × Store
resolved_in (pane, s) = (SessionResult.resolved, pane, s)

abbrev pub resolve_lookup :
    String → SessionLookup → String → ℕ → Store → SessionResult × String × Store
resolve_lookup agent SessionLookup.no_session pane now s = (SessionResult.unresolved, pane, s)
resolve_lookup agent SessionLookup.session_unread pane now s = (SessionResult.unresolved, pane, s)
resolve_lookup agent (SessionLookup.hosted_in p) pane now s =
    if str_eq p ""
    then (SessionResult.stale, pane, s)
    else resolved_in (if str_eq p pane then (pane, s) else heal agent p pane now s)

unfoldable pub resolve_session :
    PreflightOpts → String → SessionLookup → String → ℕ → Store → SessionResult × String × Store
unfolding heal
resolve_session c agent l pane now s =
    if c.drift_check_disabled
    then (SessionResult.unresolved, pane, s)
    else resolve_lookup agent l pane now s

abbrev pub is_stale_session : SessionResult → Bool
is_stale_session SessionResult.stale = true
is_stale_session SessionResult.resolved = false
is_stale_session SessionResult.unresolved = false

abbrev pub is_resolved : SessionResult → Bool
is_resolved SessionResult.resolved = true
is_resolved SessionResult.unresolved = false
is_resolved SessionResult.stale = false

-- Whether the pane runs the agent: go on in a pane, or fail for the reason; a bare shell has no session.
pub data Drift : Type 0 where
  proceeds : String × Store → Drift
  drifted : String → Drift
  no_live_session : Drift

abbrev pub on_wrong_agent : String → AgentLookup → String → ℕ → Store → Drift
on_wrong_agent agent AgentLookup.lookup_failed pane now s = Drift.proceeds (pane, s)
on_wrong_agent agent AgentLookup.lookup_ambiguous pane now s =
    Drift.drifted "drift_lookup_ambiguous"
on_wrong_agent agent (AgentLookup.found_in p) pane now s =
    if other_pane p pane
    then Drift.proceeds (heal agent p pane now s)
    else Drift.drifted "drift_detected_unrecoverable"

abbrev pub on_bare_pane : String → AgentLookup → String → ℕ → Store → Drift
on_bare_pane agent AgentLookup.lookup_failed pane now s = Drift.no_live_session
on_bare_pane agent AgentLookup.lookup_ambiguous pane now s = Drift.no_live_session
on_bare_pane agent (AgentLookup.found_in p) pane now s =
    if other_pane p pane
    then Drift.proceeds (heal agent p pane now s)
    else if str_eq p pane
    then Drift.proceeds (pane, s)
    else Drift.no_live_session

unfoldable pub drift_check : String → PaneName → AgentLookup → String → ℕ → Store → Drift
unfolding heal
drift_check agent PaneName.name_unread l pane now s = Drift.proceeds (pane, s)
drift_check agent PaneName.name_ambiguous l pane now s = Drift.drifted "drift_check_ambiguous"
drift_check agent (PaneName.runs n) l pane now s =
    if str_eq n ""
    then on_bare_pane agent l pane now s
    else if str_eq n agent
    then Drift.proceeds (pane, s)
    else on_wrong_agent agent l pane now s
