-- ===== src/Gate.antt =====
-- internal/tmuxio/observe_gate.go: `ObserveGate`, which polls the recipient's pane before a delivery
-- until a paste is safe, a draft is stale or the time is over; and the states of internal/tmuxio/state.go.
-- A poll holds what tmux answered and the clock read; the float product of the backoff, the hash of
-- the draft and the polls are parameters. The reason texts are left out.
pub mod Safety
pub mod Stale
pub mod Drafts
pub mod Ends
pub mod Nudges
use tmux_tell.Common.{
  ℕ, suc, ◌+◌, ◌-◌, ◌*◌, String, Bool, true, false, not, Option, none, some, List, [], ◌∷◌, ◌&&◌,
  ◌||◌, leb, ltb, ◌==◌, str_eq, if◌then◌else◌, min, ◌⊎◌,
}

-- `State` of a pane.
pub data PaneState : Type 0 where
  unknown idle working at_rest_in_compaction awaiting_operator in_copy_mode rate_limited
        usage_limited errored :
      PaneState

unfoldable pub is_paste_unsafe_forced : PaneState → Bool
is_paste_unsafe_forced PaneState.awaiting_operator = true
is_paste_unsafe_forced PaneState.unknown = true
is_paste_unsafe_forced PaneState.at_rest_in_compaction = true
is_paste_unsafe_forced PaneState.in_copy_mode = true
is_paste_unsafe_forced PaneState.errored = true
is_paste_unsafe_forced _ = false

abbrev pub is_limited : PaneState → Bool
is_limited PaneState.rate_limited = true
is_limited PaneState.usage_limited = true
is_limited _ = false

unfoldable pub is_paste_unsafe : PaneState → Bool
unfolding is_paste_unsafe_forced
is_paste_unsafe s = is_paste_unsafe_forced s || is_limited s

-- Durations are in nanoseconds; a zero stands for a default.
pub record GateOpts : Type 0 where
  pub poll_interval_min : ℕ
  pub poll_interval_max : ℕ
  pub input_stale_threshold : ℕ
  pub max_wait : ℕ
  pub notifies : Bool
  pub working_deliver_immediately : Bool

abbrev pub second : ℕ
second = 1000000000

abbrev pub or_default : ℕ → ℕ → ℕ
or_default d n = if n == 0 then d else n

abbrev pub at_least : ℕ → ℕ → ℕ
at_least lo n = if ltb n lo then lo else n

unfoldable pub with_defaults : GateOpts → GateOpts
with_defaults o =
    let lo = or_default (3 * second) o.poll_interval_min in
    record {
      poll_interval_min = lo;
      poll_interval_max = at_least lo (or_default (15 * second) o.poll_interval_max);
      input_stale_threshold = or_default (120 * second) o.input_stale_threshold;
      max_wait = or_default (300 * second) o.max_wait;
      notifies = o.notifies;
      working_deliver_immediately = o.working_deliver_immediately;
    }

-- One round: the answer of `AgentState` with its evidence, the capture of the input row (`none` where
-- it failed), the clock in the branch and at the check of the deadline, and whether the context was
-- done during the sleep.
pub record Poll : Type 0 where
  pub state : PaneState
  pub failed : Bool
  pub copy_mode_query_failed : Bool
  pub retry_after : ℕ
  pub marker : String
  pub content : Option String
  pub now : ℕ
  pub checked_at : ℕ
  pub cancelled : Bool

pub data GateError : Type 0 where
  agent_state_failed copy_mode_query_failed rate_limited usage_limited copy_mode_unsafe
        max_wait_exceeded context_done :
      GateError

pub record GateOutcome : Type 0 where
  pub state : PaneState
  pub iterations : ℕ
  pub stale : Bool
  pub input_content : String
  pub copy_mode_wait : ℕ
  pub retry_after : ℕ
  pub banner : String

-- The variables of the loop; `nudges` counts the calls of `OnOperatorTyping`.
pub record GateState : Type 0 where
  pub poll_interval : ℕ
  pub hash_seen : String
  pub hash_seen_at : ℕ
  pub last_content : String
  pub iterations : ℕ
  pub notified_of_typing : Bool
  pub first_copy_mode_at : Option ℕ
  pub copy_mode_fail_run : ℕ
  pub nudges : ℕ

pub data GateStep : Type 0 where
  returns : GateOutcome → Option GateError → GateState → GateStep
  sleeps : ℕ → GateState → GateStep

abbrev pub copy_mode_query_fail_defer_threshold : ℕ
copy_mode_query_fail_defer_threshold = 3

abbrev pub since_if_set : Option ℕ → ℕ → ℕ
since_if_set none now = 0
since_if_set (some t) now = now - t

abbrev pub content_of : Option String → String
content_of none = ""
content_of (some c) = c

abbrev pub outcome_of : PaneState → GateState → GateOutcome
outcome_of st g = record {
  state = st;
  iterations = g.iterations;
  stale = false;
  input_content = "";
  copy_mode_wait = 0;
  retry_after = 0;
  banner = "";
}

abbrev pub waited : ℕ → GateState → GateOutcome → GateOutcome
waited now g o = record o { copy_mode_wait = since_if_set g.first_copy_mode_at now }

-- The counter of failed queries of `pane_in_mode`, and the state that the poll counts as.
abbrev pub count_query : Bool → GateState → GateState
count_query failed g =
    if failed
    then record g { copy_mode_fail_run = suc g.copy_mode_fail_run }
    else record g { copy_mode_fail_run = 0 }

abbrev pub trusted_state : Bool → PaneState → PaneState
trusted_state failed st = if failed then PaneState.unknown else st

abbrev pub nudge : GateOpts → GateState → GateState
nudge o g =
    if not g.notified_of_typing && o.notifies
    then record g { notified_of_typing = true; nudges = suc g.nudges }
    else g

abbrev pub stamp : ℕ → Option ℕ → Option ℕ
stamp now none = some now
stamp now (some t) = some t

abbrev pub is_in_copy_mode : PaneState → Bool
is_in_copy_mode PaneState.in_copy_mode = true
is_in_copy_mode _ = false

-- What the gate returns once the deadline is over.
abbrev pub past_deadline : PaneState → Poll → GateState → GateStep
past_deadline st p g =
    if is_in_copy_mode st
    then returns (waited p.checked_at g (outcome_of PaneState.in_copy_mode g))
        (some GateError.copy_mode_unsafe) g
    else if ltb 0 g.copy_mode_fail_run
    then returns (waited p.checked_at g (outcome_of PaneState.unknown g))
        (some GateError.copy_mode_query_failed) g
    else returns
        (record (waited p.checked_at g (outcome_of st g)) {
          stale = true;
          input_content = g.last_content;
        })
        (some GateError.max_wait_exceeded) g

abbrev pub counted : GateState → GateState
counted g = record g { iterations = suc g.iterations }

pub record GateRun : Type 0 where
  pub outcome : Option (GateOutcome × Option GateError)
  pub naps : List ℕ
  pub final : GateState

abbrev pub after_step : GateStep → (GateState → GateRun) → GateRun
after_step (returns out err h) rest = record { outcome = some (out, err); naps = []; final = h }
after_step (sleeps d h) rest = let r = rest h in record r { naps = d ∷ r.naps }

abbrev pub first_round : GateOpts → GateState
first_round o = record {
  poll_interval = o.poll_interval_min;
  hash_seen = "";
  hash_seen_at = 0;
  last_content = "";
  iterations = 0;
  notified_of_typing = false;
  first_copy_mode_at = none;
  copy_mode_fail_run = 0;
  nudges = 0;
}

module _ (scale : ℕ → ℕ) (hash_content : String → String) where
  abbrev pub grow : GateOpts → ℕ → ℕ
  grow o interval = min (scale interval) o.poll_interval_max

  -- The hash in sight, and since when; fresh activity resets the cadence.
  abbrev pub watch : GateOpts → String → ℕ → GateState → GateState
  watch o content now g =
      let seen = record g { last_content = content } in
      if str_eq g.hash_seen "" || not (str_eq (hash_content content) g.hash_seen)
      then record seen {
        hash_seen = hash_content content;
        hash_seen_at = now;
        poll_interval = o.poll_interval_min;
      }
      else seen

  -- The safety cap, and else the sleep.
  abbrev pub cap : GateOpts → ℕ → PaneState → Poll → GateState → GateStep
  cap o deadline st p g =
      if ltb deadline p.checked_at
      then past_deadline st p g
      else if p.cancelled
      then returns (outcome_of st g) (some GateError.context_done) g
      else sleeps (min g.poll_interval (deadline - p.checked_at))
          (record g { poll_interval = grow o g.poll_interval })

  -- The branch of a draft in the input row.
  abbrev pub on_awaiting : GateOpts → ℕ → Poll → GateState → GateStep
  on_awaiting o deadline p g =
      let w = watch o (content_of p.content) p.now (nudge o g) in
      if leb o.input_stale_threshold (p.now - w.hash_seen_at)
      then returns
          (record (outcome_of PaneState.awaiting_operator w) {
            stale = true;
            input_content = content_of p.content;
          })
          none w
      else cap o deadline PaneState.awaiting_operator p w

  -- The switch on the state.
  abbrev pub on_state : GateOpts → ℕ → PaneState → Poll → GateState → GateStep
  on_state o deadline PaneState.idle p g =
      returns (waited p.now g (outcome_of PaneState.idle g)) none g
  on_state o deadline PaneState.awaiting_operator p g = on_awaiting o deadline p g
  on_state o deadline PaneState.working p g =
      if o.working_deliver_immediately
      then returns (waited p.now g (outcome_of PaneState.working g)) none g
      else cap o deadline PaneState.working p g
  on_state o deadline PaneState.rate_limited p g =
      returns
        (record (outcome_of PaneState.rate_limited g) {
          retry_after = p.retry_after;
          banner = p.marker;
        })
        (some GateError.rate_limited) g
  on_state o deadline PaneState.usage_limited p g =
      returns (record (outcome_of PaneState.usage_limited g) { banner = p.marker })
        (some GateError.usage_limited) g
  on_state o deadline PaneState.in_copy_mode p g =
      cap o deadline PaneState.in_copy_mode p
        (record g { first_copy_mode_at = stamp p.now g.first_copy_mode_at })
  on_state o deadline PaneState.at_rest_in_compaction p g =
      cap o deadline PaneState.at_rest_in_compaction p g
  on_state o deadline PaneState.unknown p g = cap o deadline PaneState.unknown p g
  on_state o deadline PaneState.errored p g = cap o deadline PaneState.errored p g

  -- A persistent failure of the query ends the loop; a single one counts as an unknown state.
  abbrev pub on_query : GateOpts → ℕ → Bool → Poll → GateState → GateStep
  on_query o deadline failed p g =
      let q = count_query failed g in
      if leb copy_mode_query_fail_defer_threshold q.copy_mode_fail_run
      then returns (waited p.now q (outcome_of PaneState.unknown q))
          (some GateError.copy_mode_query_failed) q
      else on_state o deadline (trusted_state failed p.state) p q

  -- One round of the loop.
  unfoldable pub gate_step : GateOpts → ℕ → Poll → GateState → GateStep
  gate_step o deadline p g =
      if p.failed
      then returns (outcome_of p.state (counted g)) (some GateError.agent_state_failed) (counted g)
      else on_query o deadline p.copy_mode_query_failed p (counted g)

  -- The loop over the polls; without an outcome it would poll again.
  unfoldable pub gate_loop : GateOpts → ℕ → List Poll → GateState → GateRun
  unfolding gate_step
  gate_loop o deadline [] g = record { outcome = none; naps = []; final = g }
  gate_loop o deadline (p ∷ ps) g =
      after_step (gate_step o deadline p g) (λ h. gate_loop o deadline ps h)

  -- `ObserveGate`; `none` is the refusal of an empty pane.
  unfoldable pub observe_gate : String → GateOpts → ℕ → List Poll → Option GateRun
  unfolding gate_loop with_defaults
  observe_gate pane opts started polls =
      if str_eq pane ""
      then none
      else let o = with_defaults opts in
        some (gate_loop o (started + o.max_wait) polls (first_round o))
