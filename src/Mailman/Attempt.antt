-- ===== src/Mailman/Attempt.antt =====
-- internal/cli/serve.go: from a claimed message to the paste. What the mailman makes of the outcome of
-- the observe gate, the archive of a stale draft, and the last check of the pane before the paste. The
-- store's answers to failed writes, the log and the metrics are left out; what tmux answers is a
-- parameter, as is `rateLimitWakeDelay`, whose jitter is random.
pub mod Drafts
pub mod Pastes
pub mod Parks
use Prim.Native.Char.{code}
use Prim.Native.String.{◌++◌}
use tmux_tell.Common.{
  ℕ, suc, ◌+◌, ◌*◌, String, Bool, true, false, Option, none, some, ◌&&◌, ◌||◌, not, ltb, leb, ◌==◌,
  str_eq, if◌then◌else◌,
}
use tmux_tell.Gate.{PaneState, GateError, GateOutcome, is_paste_unsafe, is_paste_unsafe_forced}
use tmux_tell.Store.Tables.{Kind, Message, Store, Result, ok, err, same_kind}
use tmux_tell.Store.Insert.{InsertParams, InsertResult}
use tmux_tell.Store.Insert.Operations.{insert_notice}
use tmux_tell.Store.Claim.{recover_delivering}
use tmux_tell.Store.Agents.{set_stuck}
use tmux_tell.Mailman.Backoff.{second, pane_not_found_backoff, rate_limit_backoff}

-- The options of the loop that these steps read.
pub record ServeOpts : Type 0 where
  pub agent : String
  pub gate_disabled : Bool
  pub pre_paste_safety_disabled : Bool
  pub inter_message_delay : ℕ
  pub stuck_threshold : ℕ

-- The variables that the loop keeps between messages.
pub record LoopVars : Type 0 where
  pub rate_limited_msg_id : String
  pub rate_limited_attempts : ℕ
  pub usage_limited_msg_id : String
  pub pane_fail_msg_id : String
  pub consecutive_pane_fails : ℕ
  pub consecutive_session_stale : ℕ

abbrev pub usage_limit_recheck_interval : ℕ
usage_limit_recheck_interval = 30 * second

-- What a step decides: go on to the paste, leave the loop, or give the message back and sleep; a
-- parked mailman gives it back and does not sleep.
pub data Verdict : Type 0 where
  goes_on stops parks : Verdict
  retries_after : ℕ → Verdict

-- A rate limit counts the attempts of one message.
abbrev pub count_rate_limit : String → LoopVars → LoopVars
count_rate_limit i v =
    if str_eq v.rate_limited_msg_id i
    then record v { rate_limited_attempts = suc v.rate_limited_attempts }
    else record v { rate_limited_msg_id = i; rate_limited_attempts = 1 }

abbrev pub base_delay : ℕ → ℕ → ℕ
base_delay retry_after attempts =
    if ltb 0 retry_after then retry_after else rate_limit_backoff attempts

module _ (wake_delay : ℕ → ℕ → ℕ) where
  -- The switch on the error of `ObserveGate`; `canceled` says that it is `context.Canceled`.
  unfoldable pub gate_verdict :
      ServeOpts → Bool → GateOutcome → Option GateError → Message → LoopVars → Verdict × LoopVars
  gate_verdict o canceled out none m v = (Verdict.goes_on, v)
  gate_verdict o canceled out (some GateError.usage_limited) m v =
      if m.force_rate_limited then (Verdict.goes_on, v) else (
        Verdict.retries_after usage_limit_recheck_interval,
        record v { usage_limited_msg_id = m.public_id },
      )
  gate_verdict o canceled out (some GateError.rate_limited) m v =
      if m.force_rate_limited
      then (Verdict.goes_on, v)
      else let w = count_rate_limit m.public_id v in
        (
          Verdict.retries_after
              (wake_delay (base_delay out.retry_after w.rate_limited_attempts) m.priority),
          w,
        )
  gate_verdict o canceled out (some GateError.copy_mode_unsafe) m v =
      (Verdict.retries_after o.inter_message_delay, v)
  gate_verdict o canceled out (some GateError.copy_mode_query_failed) m v =
      (Verdict.retries_after o.inter_message_delay, v)
  gate_verdict o canceled out (some GateError.max_wait_exceeded) m v = (Verdict.goes_on, v)
  gate_verdict o canceled out (some GateError.agent_state_failed) m v =
      (if canceled then Verdict.stops else Verdict.goes_on, v)
  gate_verdict o canceled out (some GateError.context_done) m v =
      (if canceled then Verdict.stops else Verdict.goes_on, v)

-- `clearRateLimitState` and `clearUsageLimitState` for the message that goes on.
abbrev pub clear_limits : Message → LoopVars → LoopVars
clear_limits m v = record v {
  rate_limited_msg_id =
      if str_eq v.rate_limited_msg_id m.public_id then "" else v.rate_limited_msg_id;
  rate_limited_attempts =
      if str_eq v.rate_limited_msg_id m.public_id then 0 else v.rate_limited_attempts;
  usage_limited_msg_id =
      if str_eq v.usage_limited_msg_id m.public_id then "" else v.usage_limited_msg_id;
}

-- `renderStrandedDraftBody`, with `indentForBody`; `active.BinaryName` is a parameter.
abbrev pub indent_lines : String → String
indent_lines String.[] = String.[]
indent_lines (String.◌∷◌ c s) =
    if code c == 10 then String.◌∷◌ c ("    " ++ indent_lines s) else String.◌∷◌ c (indent_lines s)

unfoldable pub indent_for_body : String → String
indent_for_body s = if str_eq s "" then "    (empty)" else "    " ++ indent_lines s

unfoldable pub render_stranded_draft_body : String → String → String → String → String
render_stranded_draft_body binary_name pane trigger content =
    ":bookmark: Stranded draft snapshot\n"
    ++ ("  Pane: "
        ++ (pane
            ++ ("\n  Triggered by delivery of: "
                ++ (trigger
                    ++ ("\n  Recover: "
                        ++ (binary_name
                            ++ (" stranded list  →  "
                                ++ (binary_name
                                    ++ (" stranded show <id>\n  Note: content is the visible terminal area at capture time — text scrolled above the screen may not appear.\n  Cleared content:\n"
                                        ++ indent_for_body content)))))))))

abbrev pub notice_params : String → String → String → Kind → InsertParams
notice_params from to body kind = record {
  from_agent = from;
  to_agent = to;
  reply_to = "";
  body = body;
  kind = some kind;
  no_reply_expected = false;
  quick = false;
  replay_of = "";
  replay_of_at = "";
  deliver_after = "";
  expects_reply = false;
  priority = 0;
  force_rate_limited = false;
  max_recipient_queue = 0;
  max_sender_backlog = 0;
}

abbrev pub succeeded : {A : Type 0} → Result A → Bool
succeeded (ok a) = true
succeeded (err e) = false

-- What the flush of a stale draft does to the input row: nothing, or some presses of Ctrl+U.
pub data Flush : Type 0 where
  keeps_input : Flush
  clears_lines : ℕ → Flush

abbrev pub count_newlines : String → ℕ
count_newlines String.[] = 0
count_newlines (String.◌∷◌ c s) = if code c == 10 then suc (count_newlines s) else count_newlines s

abbrev pub flushed_after : {A : Type 0} → String → Result A × Store → Flush × Store
flushed_after content (r, s) =
    (if succeeded r then Flush.clears_lines (count_newlines content + 1) else Flush.keeps_input, s)

-- A stale draft is archived, unless the message is itself such an archive.
abbrev pub archives : GateOutcome → Message → Bool
archives out m =
    out.stale && (not (str_eq out.input_content "") && not (same_kind m.kind Kind.stranded_draft))

module _ (draws : ℕ → Option String) (now : ℕ) (binary_name : String) where
  -- `archiveStrandedDraft`
  unfoldable pub archive_stranded_draft :
      String → String → String → String → Store → Result InsertResult × Store
  archive_stranded_draft receiver pane trigger content s =
      insert_notice draws now
        (notice_params receiver receiver
          (render_stranded_draft_body binary_name pane trigger content) Kind.stranded_draft)
        s

  -- The input row is read again before the archive; `none` is a failed capture.
  abbrev pub archive_fresh :
      String → String → Option String → String → Message → Store → Flush × Store
  archive_fresh agent pane none content m s =
      flushed_after content (archive_stranded_draft agent pane m.public_id content s)
  archive_fresh agent pane (some c) content m s =
      if str_eq c ""
      then (Flush.clears_lines (count_newlines content + 1), s)
      else flushed_after c (archive_stranded_draft agent pane m.public_id c s)

  unfoldable pub flush_draft :
      String → String → Option String → GateOutcome → Message → Store → Flush × Store
  flush_draft agent pane fresh out m s =
      if archives out m
      then archive_fresh agent pane fresh out.input_content m s
      else (Flush.keeps_input, s)

-- The last probe: the state, and its failure; `pane_gone` is an error with "can't find pane".
pub data ProbeFailure : Type 0 where
  pane_gone other_failure : ProbeFailure

abbrev pub unsafe_for : Message → PaneState → Bool
unsafe_for m st = if m.force_rate_limited then is_paste_unsafe_forced st else is_paste_unsafe st

abbrev pub count_pane_fail : String → LoopVars → LoopVars
count_pane_fail i v =
    if str_eq i v.pane_fail_msg_id
    then record v { consecutive_pane_fails = suc v.consecutive_pane_fails }
    else record v { pane_fail_msg_id = i; consecutive_pane_fails = 1 }

abbrev pub no_pane_fails : LoopVars → LoopVars
no_pane_fails v = record v { pane_fail_msg_id = ""; consecutive_pane_fails = 0 }

pub record Prepared : Type 0 where
  pub verdict : Verdict
  pub vars : LoopVars
  pub store : Store

-- A pane that cannot be found: back off, and park at the threshold.
unfoldable pub on_pane_gone : ServeOpts → Message → LoopVars → Store → Prepared
on_pane_gone o m v s =
    let w = count_pane_fail m.public_id v in
    if ltb 0 o.stuck_threshold && leb o.stuck_threshold w.consecutive_pane_fails
    then record {
      verdict = Verdict.parks;
      vars = no_pane_fails w;
      store = (set_stuck o.agent "pane-not-found" s).1;
    }
    else record {
      verdict = Verdict.retries_after (pane_not_found_backoff w.consecutive_pane_fails);
      vars = w;
      store = s;
    }

-- The pre-paste safety check.
unfoldable pub pre_paste_check :
    ServeOpts → PaneState → Option ProbeFailure → Message → LoopVars → Store → Prepared
unfolding on_pane_gone
pre_paste_check o st failure m v s =
    if o.pre_paste_safety_disabled
    then record { verdict = Verdict.goes_on; vars = v; store = s }
    else (elim failure [
      | some ProbeFailure.pane_gone ↦ on_pane_gone o m v (recover_delivering o.agent s).1
      | some ProbeFailure.other_failure ↦ record {
        verdict = Verdict.retries_after 0;
        vars = no_pane_fails v;
        store = (recover_delivering o.agent s).1;
      }
      | none ↦
          if unsafe_for m st
          then record {
            verdict = Verdict.retries_after 0;
            vars = no_pane_fails v;
            store = (recover_delivering o.agent s).1;
          }
          else record { verdict = Verdict.goes_on; vars = no_pane_fails v; store = s }
    ])

-- What tmux answered in one attempt: the outcome of the gate, whether its error is
-- `context.Canceled`, the second capture of the input row, and the last probe.
pub record Answers : Type 0 where
  pub outcome : GateOutcome
  pub gate_error : Option GateError
  pub canceled : Bool
  pub fresh : Option String
  pub probe : PaneState
  pub probe_failure : Option ProbeFailure

-- After the gate: a message that does not go on is queued again, unless the loop is left.
abbrev pub after_verdict : ServeOpts → Verdict × LoopVars → Store → Prepared → Prepared
after_verdict o (Verdict.goes_on, v) s next = next
after_verdict o (Verdict.stops, v) s next = record { verdict = Verdict.stops; vars = v; store = s }
after_verdict o (Verdict.parks, v) s next = record {
  verdict = Verdict.parks;
  vars = v;
  store = (recover_delivering o.agent s).1;
}
after_verdict o (Verdict.retries_after d, v) s next = record {
  verdict = Verdict.retries_after d;
  vars = v;
  store = (recover_delivering o.agent s).1;
}

module _ (wake_delay : ℕ → ℕ → ℕ) (draws : ℕ → Option String) (now : ℕ) (binary_name : String) where
  -- From the claim to the paste: `goes_on` is the paste.
  unfoldable pub attempt : ServeOpts → String → Answers → Message → LoopVars → Store → Prepared
  unfolding gate_verdict flush_draft pre_paste_check
  attempt o pane a m v s =
      if o.gate_disabled
      then pre_paste_check o a.probe a.probe_failure m v s
      else let g = gate_verdict wake_delay o a.canceled a.outcome a.gate_error m v in
        after_verdict o g s (
          pre_paste_check o a.probe a.probe_failure m (clear_limits m g.1)
            (flush_draft draws now binary_name o.agent pane a.fresh a.outcome m s).1)
