-- ===== src/Mailman/Round/Flight.antt =====
-- Whether a message of the agent is in flight before and after a round.
use tmux_tell.Common.{
  ℕ, String, Bool, true, Option, none, some, ◌≡◌, ◌⊎◌, ap, ◌∙◌, inl, inr, arith, if_cases, eq_refl,
  count_rows, subst,
}
use tmux_tell.Names.{canonical_name}
use tmux_tell.Store.Schedule.{Strategy}
use tmux_tell.Store.Tables.{State, Message, Store, Result, ok, err}
use tmux_tell.Store.Integrity.{IsSound}
use tmux_tell.Store.Claim.{delivering_to, claim_next_with_strategy}
use tmux_tell.Store.Tables.{Kind, Reason, same_kind}
use tmux_tell.Store.Deliver.{
  as_delivered, as_failed, mark_delivered, mark_delivered_core, mark_failed,
}
use tmux_tell.Mailman.Attempt.{ServeOpts, LoopVars, Verdict, attempt}
use tmux_tell.Mailman.Attempt.Pastes.{Settles, attempt-Settles}
use tmux_tell.Mailman.Outcome.{OutcomeOpts, end_round}
use tmux_tell.Mailman.Outcome.Landed.{IsClaimed, mark-Landed, on_delivery-Landed}
use tmux_tell.Mailman.Round.{
  RoundAnswers, round, after_claim, after_attempt, handle_ping, answer_ping, ping_failure,
  forget_others,
}
use tmux_tell.Mailman.Round.Claims.{claim-IsClaimed, idle-eq}
use tmux_tell.Mailman.Round.Pastes.{AtPaste, attempt-IsClaimed}
use tmux_tell.Store.History.Life.{Kept, moved}
use tmux_tell.Store.History.Rows.{claim-Moves}
use tmux_tell.Mailman.Panes.{PreflightOpts, other_pane}
use tmux_tell.Mailman.Preflight.{preflight}
use tmux_tell.Mailman.Preflight.Holds.{Held, Freed, AtGate, upsert_agent-Held}
use tmux_tell.Mailman.Preflight.Ends.{preflight-Ready}
use tmux_tell.Mailman.Outcome.{Delivery}
use tmux_tell.Mailman.Round.{PasteAnswers, paste, heal_pane, after_paste, after_preflight}
use tmux_tell.Mailman.Round.Soundness.{attempt-Kept, answer_ping-Kept, ring-Kept}
use tmux_tell.Mailman.Round.Soundness.Steps.{Kept-trans, Kept-refl, on_delivery-Kept}
use tmux_tell.Mailman.Attempt.{attempt}

-- After a round nothing is in flight, or the loop was canceled.
abbrev pub Quiet : String → Bool → Store → Type 0
Quiet to canceled t = (canceled ≡ true) ⊎ (count_rows (delivering_to to) t.messages ≡ 0)

-- And since the store b the table was kept.
abbrev pub Calm : Store → String → Bool → Store → Type 0
Calm b to canceled t = Kept b t × Quiet to canceled t

-- The auto-heal touches no message.
heal_pane-Held :
    (b : Store) (to : String) (m : Message) (agent pane : String) (now : ℕ) (a : PasteAnswers)
    (p : Option String) (s : Store)
    → Held b to m s
    → Held b to m (heal_pane agent pane now a p s).1
heal_pane-Held b to m agent pane now a none s h = h
heal_pane-Held b to m agent pane now a (some p) s h =
    if_cases (λ (x : Delivery × Store). Held b to m x.1) (other_pane p pane)
      (λ _. upsert_agent-Held b to m agent p now s h) (λ _. h)

paste-Held :
    (b : Store) (to : String) (m : Message) (agent pane : String) (now : ℕ) (a : PasteAnswers)
    (s : Store)
    → Held b to m s
    → Held b to m (paste agent pane now a s).1
unfolding paste
paste-Held b to m agent pane now a s h =
    if_cases (λ (x : Delivery × Store). Held b to m x.1) a.pane_gone
      (λ _. heal_pane-Held b to m agent pane now a a.rediscovered s h) (λ _. h)

module _ (wake_delay : ℕ → ℕ → ℕ) (draws : ℕ → Option String) (now : ℕ) (binary_name : String) where
  after_paste-Freed :
      (b : Store) (out : OutcomeOpts) (m : Message) (x : Delivery × Store)
      → Held b (canonical_name out.agent) m x.1
      → Freed b (canonical_name out.agent) (after_paste wake_delay draws now binary_name out m x)
  unfolding end_round
  after_paste-Freed b out m (d, t) (k, c) = (
    Kept-trans (Kept-trans k (on_delivery-Kept draws now out d m t)) (ring-Kept out.agent _),
    (on_delivery-Landed draws now out d m t c).0,
  )

  after_attempt-Calm :
      (b : Store) (o : ServeOpts) (out : OutcomeOpts) (a : RoundAnswers) (m : Message)
      (pane : String) (s : Store) (w : Verdict) (t : Store)
      → out.agent ≡ o.agent
      → Kept b t
      → AtPaste (IsClaimed (canonical_name out.agent) m) w t
      → Settles o a.gate m s w t
      → Calm b
          (canonical_name out.agent)
          a.gate.canceled
          (after_attempt wake_delay draws now binary_name out a.paste m pane w t)
  after_attempt-Calm b o out a m pane s Verdict.goes_on t e k c h =
      let (l, z) =
        after_paste-Freed b out m (paste out.agent pane now a.paste t)
          (paste-Held b (canonical_name out.agent) m out.agent pane now a.paste t (k, c)) in
      (l, inr z)
  after_attempt-Calm b o out a m pane s Verdict.stops t e k c (canceled, same) = (k, inl canceled)
  after_attempt-Calm b o out a m pane s Verdict.parks t e k c h =
      (k, inr (ap (λ (n : String). count_rows (delivering_to (canonical_name n)) t.messages) e ∙ h))
  after_attempt-Calm b o out a m pane s (Verdict.retries_after n) t e k c h =
      (k, inr (ap (λ (n : String). count_rows (delivering_to (canonical_name n)) t.messages) e ∙ h))

  after_preflight-Calm :
      (b : Store) (o : ServeOpts) (out : OutcomeOpts) (a : RoundAnswers) (m : Message)
      (v : LoopVars) (pane : Option String) (s : Store)
      → out.agent ≡ o.agent
      → AtGate b (canonical_name out.agent) m pane s
      → Calm b
          (canonical_name out.agent)
          a.gate.canceled
          (after_preflight wake_delay draws now binary_name o out a m v pane s)
  after_preflight-Calm b o out a m v none s e (k, z) = (k, inr z)
  after_preflight-Calm b o out a m v (some pane) s e (k, c) =
      let p = attempt wake_delay draws now binary_name o pane a.gate m v s in
      after_attempt-Calm b o out a m pane s p.verdict p.store e
        (Kept-trans k (attempt-Kept wake_delay draws now binary_name o pane a.gate m v s))
        (attempt-IsClaimed wake_delay draws now binary_name (canonical_name out.agent) o pane a.gate
          m v s c)
        (attempt-Settles wake_delay draws now binary_name o pane a.gate m v s)

  answer_ping-Quiet :
      (to : String) (m : Message) (s : Store) (r : Option String)
      → IsClaimed to m s
      → count_rows (delivering_to to) (answer_ping now m s r).messages ≡ 0
  unfolding mark_delivered mark_delivered_core mark_failed
  answer_ping-Quiet to m s none c =
      (mark-Landed to m State.delivered (as_delivered true now) s c (λ x e. ground arith)
        (ground (arith, eq_refl m.public_id))).0
  answer_ping-Quiet to m s (some r) c =
      (mark-Landed to m State.failed (as_failed (Reason.text r) now) s c (λ x e. ground arith)
        (ground (arith, eq_refl m.public_id))).0

  -- A message that was claimed, the only one in flight.
  after_message-Calm :
      (b : Store) (c : PreflightOpts) (o : ServeOpts) (out : OutcomeOpts) (a : RoundAnswers)
      (v : LoopVars) (m : Message) (t : Store)
      → out.agent ≡ o.agent
      → Held b (canonical_name out.agent) m t
      → Calm b
          (canonical_name out.agent)
          a.gate.canceled
          (after_claim wake_delay draws now binary_name c o out a v (ok (some m), t))
  unfolding handle_ping
  after_message-Calm b c o out a v m t e (k, i) =
      let to = canonical_name out.agent in
      let r = ping_failure binary_name a.pane a.live in
      if_cases (Calm b to a.gate.canceled) (same_kind m.kind Kind.ping)
        (λ _. (
          Kept-trans (Kept-trans k (answer_ping-Kept draws now m t r)) (ring-Kept o.agent _),
          inr (answer_ping-Quiet to m t r i),
        ))
        (λ _.
          let q = preflight draws now c o out a.preflight m a.pane v.consecutive_session_stale t in
          after_preflight-Calm b o out a m
            (record (forget_others m v) { consecutive_session_stale = q.stale_run }) q.pane q.store
            e
            (preflight-Ready draws now b c o out a.preflight m a.pane v.consecutive_session_stale t
              (k, i)))

  after_claim-Calm :
      (strategy : Strategy) (c : PreflightOpts) (o : ServeOpts) (out : OutcomeOpts)
      (a : RoundAnswers) (v : LoopVars) (s : Store) (x : Result (Option Message) × Store)
      → out.agent ≡ o.agent
      → IsSound s
      → count_rows (delivering_to (canonical_name out.agent)) s.messages ≡ 0
      → claim_next_with_strategy out.agent strategy s ≡ x
      → Calm s
          (canonical_name out.agent)
          a.gate.canceled
          (after_claim wake_delay draws now binary_name c o out a v x)
  after_claim-Calm strategy c o out a v s (err e, t) same sound z h =
      let q = idle-eq out.agent strategy s t (err e) sound h (λ m r. cc r) in
      rw q (Kept-refl s sound, inr z)
  after_claim-Calm strategy c o out a v s (ok none, t) same sound z h =
      let q = idle-eq out.agent strategy s t (ok none) sound h (λ m r. cc r) in
      rw q (Kept-refl s sound, inr z)
  after_claim-Calm strategy c o out a v s (ok (some m), t) same sound z h =
      after_message-Calm s c o out a v m t same (
        subst (λ (x : Result (Option Message) × Store). Kept s x.1) h
            (moved sound (claim-Moves out.agent strategy s sound)),
        claim-IsClaimed out.agent strategy s t m sound z h,
      )

  -- A round from a sound store with nothing in flight to its agent.
  pub round-Calm :
      (strategy : Strategy) (c : PreflightOpts) (o : ServeOpts) (out : OutcomeOpts)
      (a : RoundAnswers) (v : LoopVars) (s : Store)
      → out.agent ≡ o.agent
      → IsSound s
      → count_rows (delivering_to (canonical_name out.agent)) s.messages ≡ 0
      → Calm s
          (canonical_name out.agent)
          a.gate.canceled
          (round wake_delay draws now binary_name strategy c o out a v s)
  unfolding round
  round-Calm strategy c o out a v s same sound z =
      after_claim-Calm strategy c o out a v s (claim_next_with_strategy o.agent strategy s) same
        sound z (ap (λ (n : String). claim_next_with_strategy n strategy s) same)
