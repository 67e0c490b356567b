-- ===== src/Examples/Delivery.antt =====
-- The theorems on the gate, on an attempt and on its outcome, at concrete polls and stores.
use Prim.Native.String.{◌++◌}
use tmux_tell.Common.{
  count_rows, ℕ, suc, ◌+◌, ◌≤◌, ◌<◌, String, true, false, Option, none, some, List, [], ◌∷◌, ◌≡◌,
  refl, inl, inr, All, arith, ◌==◌, if◌then◌else◌,
}
use tmux_tell.Names.{canonical_name}
use tmux_tell.Store.Tables.{State, Message, Store}
use tmux_tell.Store.Claim.{with_state}
use tmux_tell.Gate.{
  PaneState, GateOpts, with_defaults, Poll, GateOutcome, GateRun, observe_gate, gate_loop,
  gate_step, first_round,
}
use tmux_tell.Gate.Safety.{Decided, observe_gate-Decided}
use tmux_tell.Gate.Ends.{Ended, observe_gate-Ended}
use tmux_tell.Gate.Nudges.{observe_gate-nudges}
use tmux_tell.Gate.Stale.{Fresh, is_stale}
use tmux_tell.Gate.Drafts.{observe_gate-Fresh}
use tmux_tell.Mailman.Backoff.{pane_not_found_backoff}
use tmux_tell.Mailman.Attempt.{
  ServeOpts, LoopVars, Verdict, Answers, ProbeFailure, attempt, flush_draft,
}
use tmux_tell.Mailman.Attempt.Pastes.{Settles, attempt-Settles}
use tmux_tell.Mailman.Attempt.Drafts.{Saves, flush_draft-Saves}
use tmux_tell.Mailman.Attempt.Parks.{after_fails, after_fails-Parks}
use tmux_tell.Mailman.Outcome.{Delivery, OutcomeOpts, on_delivery}
use tmux_tell.Mailman.Outcome.Landed.{HasLanded, IsClaimed, end_state, on_delivery-Landed}
use tmux_tell.Store.Schedule.{max_priority}
use tmux_tell.Store.Claim.{delivering_to}
use tmux_tell.Mailman.Panes.{PreflightOpts, SessionLookup, PaneName, AgentLookup}
use tmux_tell.Mailman.Preflight.{PreflightAnswers}
use tmux_tell.Mailman.Round.{Liveness, RoundAnswers, Turn, rounds}
use tmux_tell.Mailman.Round.Runs.{Idle, rounds-Idle}
use tmux_tell.Examples.Data.{draws, row, harbor, harbor-IsSound}

-- Twice the interval, and a hash that tells the drafts apart.
abbrev scale : ℕ → ℕ
scale n = n + n

abbrev hash : String → String
hash s = "h" ++ s

abbrev gate_opts : GateOpts
gate_opts = record {
  poll_interval_min = 3;
  poll_interval_max = 15;
  input_stale_threshold = 10;
  max_wait = 40;
  notifies = true;
  working_deliver_immediately = false;
}

abbrev poll : PaneState → Option String → ℕ → Poll
poll st content at = record {
  state = st;
  failed = false;
  copy_mode_query_failed = false;
  retry_after = 0;
  marker = "";
  content = content;
  now = at;
  checked_at = at;
  cancelled = false;
}

-- Busy, then a draft that stays.
abbrev drafting : List Poll
drafting =
    poll PaneState.working none 0
    ∷ poll PaneState.awaiting_operator (some "dear") 3
    ∷ poll PaneState.awaiting_operator (some "dear all") 9
    ∷ poll PaneState.awaiting_operator (some "dear all") 20
    ∷ []

-- Scrolled up until the time is over.
abbrev late : Poll
late = poll PaneState.in_copy_mode none 41

abbrev scrolled : List Poll
scrolled = poll PaneState.working none 0 ∷ late ∷ []

abbrev run_of : List Poll → GateRun
run_of ps =
    gate_loop scale hash (with_defaults gate_opts) (0 + (with_defaults gate_opts).max_wait) ps
      (first_round (with_defaults gate_opts))

run_of-observe_gate :
    (ps : List Poll) → observe_gate scale hash "%1" gate_opts 0 ps ≡ some (run_of ps)
unfolding observe_gate
run_of-observe_gate ps = refl

scrolled_example :
    Decided
      (with_defaults gate_opts)
      (0 + (with_defaults gate_opts).max_wait)
      scrolled
      0
      (run_of scrolled).outcome
scrolled_example =
    observe_gate-Decided scale hash "%1" gate_opts 0 scrolled (run_of scrolled)
      (run_of-observe_gate scrolled)

late_in_time : 0 + (with_defaults gate_opts).max_wait < late.checked_at
unfolding with_defaults
late_in_time = omega arith

ends_example : Ended (run_of scrolled).outcome
ends_example =
    observe_gate-Ended scale hash "%1" gate_opts 0 scrolled late (run_of scrolled)
      (run_of-observe_gate scrolled) (inr (inl refl)) late_in_time

nudged_example :
    ((run_of drafting).final.nudges ≤ 1)
    × All (λ d. d ≤ (with_defaults gate_opts).poll_interval_max) (run_of drafting).naps
nudged_example =
    observe_gate-nudges scale hash "%1" gate_opts 0 drafting (run_of drafting)
      (run_of-observe_gate drafting)

drafting-is_stale : is_stale (run_of drafting).outcome ≡ true
unfolding gate_loop gate_step with_defaults
drafting-is_stale = refl

fresh_example :
    Fresh scale hash (with_defaults gate_opts) (0 + (with_defaults gate_opts).max_wait) drafting
fresh_example =
    observe_gate-Fresh scale hash "%1" gate_opts 0 drafting (run_of drafting)
      (run_of-observe_gate drafting) drafting-is_stale

-- The first message of the harbor is in flight.
abbrev taken : Message
taken = with_state State.delivering (row 1 "m1" "pilot" "bosun" State.queued none)

abbrev docked : Store
docked = record harbor { messages = taken ∷ row 2 "m2" "cook" "bosun" State.queued none ∷ [] }

abbrev serve_opts : ServeOpts
serve_opts = record {
  agent = "bosun";
  gate_disabled = false;
  pre_paste_safety_disabled = false;
  inter_message_delay = 1;
  stuck_threshold = 3;
}

abbrev no_vars : LoopVars
no_vars = record {
  rate_limited_msg_id = "";
  rate_limited_attempts = 0;
  usage_limited_msg_id = "";
  pane_fail_msg_id = "";
  consecutive_pane_fails = 0;
  consecutive_session_stale = 0;
}

abbrev stale_outcome : GateOutcome
stale_outcome = record {
  state = PaneState.awaiting_operator;
  iterations = 4;
  stale = true;
  input_content = "dear all";
  copy_mode_wait = 0;
  retry_after = 0;
  banner = "";
}

-- The draft is archived, and then the probe finds the pane idle.
abbrev answers : Answers
answers = record {
  outcome = stale_outcome;
  gate_error = none;
  canceled = false;
  fresh = some "dear all,";
  probe = PaneState.idle;
  probe_failure = none;
}

attempt_example :
    Settles serve_opts answers taken docked
      (attempt
        (λ d p. d)
        draws
        100
        "tmux-tell"
        serve_opts
        "%2"
        answers
        taken
        no_vars
        docked).verdict
      (attempt (λ d p. d) draws 100 "tmux-tell" serve_opts "%2" answers taken no_vars docked).store
attempt_example =
    attempt-Settles (λ d p. d) draws 100 "tmux-tell" serve_opts "%2" answers taken no_vars docked

archive_example :
    Saves "tmux-tell" "bosun" "%2" stale_outcome
      (some "dear all,")
      taken
      docked
      (flush_draft draws 100 "tmux-tell" "bosun" "%2" (some "dear all,") stale_outcome taken docked)
archive_example =
    flush_draft-Saves draws 100 "tmux-tell" "bosun" "%2" (some "dear all,") stale_outcome taken
      docked

parks_example : (after_fails serve_opts PaneState.unknown taken 2 no_vars docked).verdict ≡ (
    if suc 2 == serve_opts.stuck_threshold
    then Verdict.parks
    else Verdict.retries_after (pane_not_found_backoff (suc 2)))
parks_example =
    after_fails-Parks serve_opts PaneState.unknown taken no_vars docked 2 refl refl (omega arith)

abbrev outcome_opts : OutcomeOpts
outcome_opts = record {
  agent = "bosun";
  notify_on_failed = true;
  notify_on_delivered_in_input_box = true;
  inter_message_delay = 1;
  post_deliver_cooldown = 5;
  respawn_after_shrinks = 0;
}

docked-taken : IsClaimed (canonical_name outcome_opts.agent) taken docked
unfolding canonical_name
docked-taken = (inl refl, refl, refl)

landed_example :
    HasLanded
      (canonical_name "bosun")
      "m1"
      (end_state (Delivery.failed "no pane"))
      (on_delivery draws 100 outcome_opts (Delivery.failed "no pane") taken docked).1
landed_example =
    on_delivery-Landed draws 100 outcome_opts (Delivery.failed "no pane") taken docked docked-taken

abbrev preflight_opts : PreflightOpts
preflight_opts = record {
  drift_check_disabled = false;
  drift_soft_fail = false;
  session_stale_threshold = 3;
  dedupe_window = 95;
}

-- No session is registered, and the pane runs the agent.
abbrev preflight_answers : PreflightAnswers
preflight_answers = record {
  capped = false;
  session = SessionLookup.no_session;
  stale_probe = none;
  running = PaneName.runs "bosun";
  lookup = AgentLookup.lookup_failed;
  accepts_paste = true;
  token_visible = some false;
}

abbrev round_answers : RoundAnswers
round_answers = record {
  pane = "%2";
  live = Liveness.live_panes ("%1" ∷ "%2" ∷ []);
  preflight = preflight_answers;
  gate = answers;
  paste = record {
    first = Delivery.unverified;
    pane_gone = false;
    rediscovered = none;
    second = Delivery.unverified;
  };
}

harbor-calm : count_rows (delivering_to (canonical_name outcome_opts.agent)) harbor.messages ≡ 0
unfolding canonical_name
harbor-calm = refl

-- A round that pastes, one that finds the pane gone, and one that finds a bare shell.
abbrev turns : List Turn
turns =
    record { now = 100; vars = no_vars; answers = round_answers }
    ∷ record {
      now = 200;
      vars = no_vars;
      answers = record round_answers {
        gate = record answers { probe_failure = some ProbeFailure.pane_gone };
      };
    }
    ∷ record {
      now = 300;
      vars = no_vars;
      answers = record round_answers {
        preflight = record preflight_answers { accepts_paste = false };
      };
    }
    ∷ []

three_rounds_example : Idle (canonical_name "bosun") harbor (
    rounds
      (λ d p. d)
      draws
      "tmux-tell"
      max_priority
      preflight_opts
      serve_opts
      outcome_opts
      turns
      harbor)
three_rounds_example =
    rounds-Idle (λ d p. d) draws "tmux-tell" max_priority preflight_opts serve_opts outcome_opts
      turns harbor refl harbor-IsSound harbor-calm (refl, (refl, (refl, tt)))
