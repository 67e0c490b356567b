-- ===== src/Mailman/Round.antt =====
-- internal/cli/serve.go: a round of the mailman's loop. It claims a message, answers it if it is a
-- ping, and else runs the checks of `Preflight`, attempts it, pastes it with the auto-heal of a pane
-- that is gone, and records the delivery; `rounds` is the loop. A round begins at the claim: what the
-- loop does at its top, before it claims, is left out.
pub mod Claims
pub mod Pastes
pub mod Flight
pub mod Soundness
pub mod Runs
use Prim.Native.String.{◌++◌}
use tmux_tell.Common.{
  ℕ, String, Bool, true, false, Option, none, some, List, [], ◌∷◌, ◌&&◌, not, str_eq, any_row,
  if◌then◌else◌,
}
use tmux_tell.Store.Tables.{Kind, Reason, Message, Store, Result, ok, err, same_kind}
use tmux_tell.Store.Schedule.{Strategy}
use tmux_tell.Store.Claim.{claim_next_with_strategy}
use tmux_tell.Store.Insert.Operations.{ring}
use tmux_tell.Store.Deliver.{mark_delivered, mark_failed}
use tmux_tell.Store.Agents.{upsert_agent}
use tmux_tell.Mailman.Panes.{PreflightOpts, other_pane}
use tmux_tell.Mailman.Preflight.{PreflightAnswers, preflight}
use tmux_tell.Mailman.Attempt.{succeeded, ServeOpts, LoopVars, Verdict, Answers, attempt}
use tmux_tell.Mailman.Outcome.{Delivery, OutcomeOpts, end_round}

-- What `LivePanes` answers: an error with its text, or the ids of the live panes.
pub data Liveness : Type 0 where
  probe_error : String → Liveness
  live_panes : List String → Liveness

-- `pingHealthy`: the reason why the agent cannot be reached, or none.
unfoldable pub ping_failure : String → String → Liveness → Option String
ping_failure binary_name pane live =
    if str_eq pane ""
    then some ("agent registered but has no pane_id (run '" ++ (binary_name ++ " discover')"))
    else (elim live [
      | Liveness.probe_error e ↦ some ("pane-liveness probe failed: " ++ e)
      | Liveness.live_panes panes ↦
          if any_row (str_eq pane) panes
          then none
          else some ("registered pane " ++ (pane ++ " is not live (agent unreachable)"))
    ])

-- `handlePing`
abbrev pub answer_ping : ℕ → Message → Store → Option String → Store
answer_ping now m s none = (mark_delivered m.public_id now s).1
answer_ping now m s (some reason) = (mark_failed m.public_id (Reason.text reason) now s).1

unfoldable pub handle_ping : ℕ → String → String → Liveness → Message → Store → Store
unfolding ping_failure
handle_ping now binary_name pane live m s = answer_ping now m s (ping_failure binary_name pane live)

-- A claim forgets the limits that another message met.
abbrev pub forget_others : Message → LoopVars → LoopVars
forget_others m v =
    let rate =
      not (str_eq v.rate_limited_msg_id "") && not (str_eq v.rate_limited_msg_id m.public_id) in
    let usage =
      not (str_eq v.usage_limited_msg_id "") && not (str_eq v.usage_limited_msg_id m.public_id) in
    record v {
      rate_limited_msg_id = if rate then "" else v.rate_limited_msg_id;
      rate_limited_attempts = if rate then 0 else v.rate_limited_attempts;
      usage_limited_msg_id = if usage then "" else v.usage_limited_msg_id;
    }

-- How the paste goes: the first delivery, whether it failed because tmux cannot find the pane, where
-- the agent is then found, "" if nowhere and `none` if the search failed, and the second delivery.
pub record PasteAnswers : Type 0 where
  pub first : Delivery
  pub pane_gone : Bool
  pub rediscovered : Option String
  pub second : Delivery

-- What tmux answers in one round.
pub record RoundAnswers : Type 0 where
  pub pane : String
  pub live : Liveness
  pub preflight : PreflightAnswers
  pub gate : Answers
  pub paste : PasteAnswers

-- One round: its time, the loop's variables, and what tmux answers.
pub record Turn : Type 0 where
  pub now : ℕ
  pub vars : LoopVars
  pub answers : RoundAnswers

-- The retry in the pane that the agent moved to, if the registry takes it.
abbrev pub retried : PasteAnswers → Result (Unit {0}) × Store → Delivery × Store
retried a (r, t) = (if succeeded r then a.second else a.first, t)

abbrev pub heal_pane : String → String → ℕ → PasteAnswers → Option String → Store → Delivery × Store
heal_pane agent pane now a none s = (a.first, s)
heal_pane agent pane now a (some p) s =
    if other_pane p pane then retried a (upsert_agent agent p now s) else (a.first, s)

-- `deliverOne`, with the auto-heal of a pane that is gone.
unfoldable pub paste : String → String → ℕ → PasteAnswers → Store → Delivery × Store
paste agent pane now a s =
    if a.pane_gone then heal_pane agent pane now a a.rediscovered s else (a.first, s)

module _ (wake_delay : ℕ → ℕ → ℕ) (draws : ℕ → Option String) (now : ℕ) (binary_name : String) where
  abbrev pub after_paste : OutcomeOpts → Message → Delivery × Store → Store
  after_paste out m (d, s) = (end_round draws now out d m s).1

  -- The paste, where the attempt came to it, and its record.
  abbrev pub after_attempt : OutcomeOpts → PasteAnswers → Message → String → Verdict → Store → Store
  after_attempt out a m pane Verdict.goes_on s = after_paste out m (paste out.agent pane now a s)
  after_attempt out a m pane Verdict.stops s = s
  after_attempt out a m pane Verdict.parks s = s
  after_attempt out a m pane (Verdict.retries_after n) s = s

  -- The gate and the paste, unless a check before them ended the round.
  abbrev pub after_preflight :
      ServeOpts → OutcomeOpts → RoundAnswers → Message → LoopVars → Option String → Store → Store
  after_preflight o out a m v none s = s
  after_preflight o out a m v (some pane) s =
      let p = attempt wake_delay draws now binary_name o pane a.gate m v s in
      after_attempt out a.paste m pane p.verdict p.store

  abbrev pub after_claim :
      PreflightOpts
      → ServeOpts
      → OutcomeOpts
      → RoundAnswers
      → LoopVars
      → Result (Option Message) × Store
      → Store
  after_claim c o out a v (err e, t) = t
  after_claim c o out a v (ok none, t) = t
  after_claim c o out a v (ok (some m), t) =
      if same_kind m.kind Kind.ping
      then ring o.agent (handle_ping now binary_name a.pane a.live m t)
      else let q = preflight draws now c o out a.preflight m a.pane v.consecutive_session_stale t in
        after_preflight o out a m
          (record (forget_others m v) { consecutive_session_stale = q.stale_run }) q.pane q.store

  unfoldable pub round :
      Strategy → PreflightOpts → ServeOpts → OutcomeOpts → RoundAnswers → LoopVars → Store → Store
  unfolding handle_ping paste
  round strategy c o out a v s =
      after_claim c o out a v (claim_next_with_strategy o.agent strategy s)

module _ (wake_delay : ℕ → ℕ → ℕ) (draws : ℕ → Option String) (binary_name : String) where
  -- The loop: rounds one after the other, each at its time, with the variables that it finds.
  unfoldable pub rounds :
      Strategy → PreflightOpts → ServeOpts → OutcomeOpts → List Turn → Store → Store
  unfolding round
  rounds strategy c o out [] s = s
  rounds strategy c o out (t ∷ turns) s =
      rounds strategy c o out turns
        (round wake_delay draws t.now binary_name strategy c o out t.answers t.vars s)
