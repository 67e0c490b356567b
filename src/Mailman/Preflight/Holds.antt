-- ===== src/Mailman/Preflight/Holds.antt =====
-- Whether a message is in flight after each of the checks before the gate, and what they do to the table.
use tmux_tell.Common.{
  ℕ, suc, String, Bool, true, false, Option, none, some, List, [], ◌∷◌, ◌≡◌, refl, sym, ap, ◌∙◌,
  inl, inr, In, arith, if_cases, count_rows, count_rows-kept, update_rows, ltb, leb, ◌==◌, ◌-◌,
  eq_refl,
}
use tmux_tell.Names.{canonical_name}
use tmux_tell.Store.Tables.{State, Kind, Reason, Message, Store, Result, same_kind}
use tmux_tell.Store.Moves.{kept}
use tmux_tell.Store.Insert.Notices.{insert_notice-in_flight}
use tmux_tell.Store.Insert.Growth.Calls.{insert_notice-Grows}
use tmux_tell.Store.Agents.{upsert_agent}
use tmux_tell.Store.Claim.{delivering_to, recover_delivering}
use tmux_tell.Store.Claim.Recover.{recover_delivering-Recovers}
use tmux_tell.Store.Deliver.{
  mark_failed, as_failed, mark_verified_by_dedupe, unverified_delivery, as_verified,
  find_dedupe_match,
}
use tmux_tell.Store.History.Life.{Kept, grown, moved}
use tmux_tell.Store.History.Rows.{failed-Moves, verified-Moves}
use tmux_tell.Mailman.Attempt.Pastes.{set_stuck-messages}
use tmux_tell.Mailman.Outcome.{OutcomeOpts}
use tmux_tell.Mailman.Outcome.Landed.{IsClaimed, HasLanded, mark-Landed, notice-Landed}
use tmux_tell.Mailman.Panes.{PreflightOpts, heal}
use tmux_tell.Mailman.Preflight.{
  PreflightAnswers, Checked, on_stale_session, fail_round, insert_dedupe_notice, absorb, on_match,
  dedupe, liveness_gate,
}
use tmux_tell.Mailman.Round.Soundness.Steps.{
  Kept-trans, stuck-Kept, recover-Kept, failure_notice-Kept,
}

-- Since the store b the table was kept, and the message is the only one in flight to the agent.
abbrev pub Held : Store → String → Message → Store → Type 0
Held b to m s = Kept b s × IsClaimed to m s

-- Since then the table was kept, and none is in flight to the agent.
abbrev pub Freed : Store → String → Store → Type 0
Freed b to s = Kept b s × (count_rows (delivering_to to) s.messages ≡ 0)

abbrev pub AtGate : Store → String → Message → Option String → Store → Type 0
AtGate b to m none s = Freed b to s
AtGate b to m (some pane) s = Held b to m s

abbrev pub Ready : Store → String → Message → Checked → Type 0
Ready b to m r = AtGate b to m r.pane r.store

-- A write that leaves the messages.
Held-same :
    (b : Store) (to : String) (m : Message) (s t : Store)
    → t.messages ≡ s.messages
    → t.next_id ≡ s.next_id
    → Held b to m s
    → Held b to m t
Held-same b to m s t e n (k, (i, d, one)) = (
  Kept-trans k (λ h. moved h (kept e n)),
  (rw e i, d, ap (count_rows (delivering_to to)) e ∙ one),
)

upsert_agent-same :
    (agent pane : String) (now : ℕ) (s : Store)
    → let t = (upsert_agent agent pane now s).1 in
      (t.messages ≡ s.messages) × (t.next_id ≡ s.next_id)
unfolding upsert_agent
upsert_agent-same agent pane now s = (ground arith, ground arith)

pub upsert_agent-Held :
    (b : Store) (to : String) (m : Message) (agent pane : String) (now : ℕ) (s : Store)
    → Held b to m s
    → Held b to m (upsert_agent agent pane now s).1
upsert_agent-Held b to m agent pane now s h =
    let (e, n) = upsert_agent-same agent pane now s in
    Held-same b to m s (upsert_agent agent pane now s).1 e n h

pub heal-Held :
    (b : Store) (to : String) (m : Message) (agent new pane : String) (now : ℕ) (s : Store)
    → Held b to m s
    → Held b to m (heal agent new pane now s).1
unfolding heal
heal-Held b to m agent new pane now s h = upsert_agent-Held b to m agent new now s h

pub recover-Freed :
    (b : Store) (agent : String) (m : Message) (s : Store)
    → Held b (canonical_name agent) m s
    → Freed b (canonical_name agent) (recover_delivering agent s).1
recover-Freed b agent m s (k, c) =
    (Kept-trans k (recover-Kept agent s), (recover_delivering-Recovers agent s).none_left)

pub on_stale_session-Ready :
    (b : Store) (c : PreflightOpts) (agent : String) (m : Message) (n : ℕ) (s : Store)
    → Held b (canonical_name agent) m s
    → Ready b (canonical_name agent) m (on_stale_session c agent n s)
unfolding on_stale_session
on_stale_session-Ready b c agent m n s h =
    let (k, z) = recover-Freed b agent m s h in
    let t = (recover_delivering agent s).1 in
    if_cases (Ready b (canonical_name agent) m) (leb c.session_stale_threshold (suc n))
      (λ _. (
        Kept-trans k (stuck-Kept agent "session-stale" t),
        ap (count_rows (delivering_to (canonical_name agent)))
              (set_stuck-messages agent "session-stale" t)
            ∙ z,
      ))
      (λ _. (k, z))

-- The row in flight is not the delivered one that is confirmed.
In-untouched :
    (p : Message → Bool) (f : Message → Message) (ms : List Message) (m : Message)
    → In m ms
    → p m ≡ false
    → In m (update_rows p f ms)
In-untouched p f [] m i h = absurd i
In-untouched p f (x ∷ ms) m (inl e) h = let q = sym (ap p e) ∙ h in inl (e ∙ rw q refl)
In-untouched p f (x ∷ ms) m (inr i) h = inr (In-untouched p f ms m i h)

verified-IsClaimed :
    (to i : String) (m : Message) (s : Store)
    → IsClaimed to m s
    → IsClaimed to m (mark_verified_by_dedupe i s).1
unfolding mark_verified_by_dedupe
verified-IsClaimed to i m s (j, d, one) =
    if_cases (λ (x : Result (Unit {0}) × Store). IsClaimed to m x.1)
      (count_rows (unverified_delivery i) s.messages == 0) (λ _. (j, d, one))
      (λ _. (
        In-untouched (unverified_delivery i) as_verified s.messages m j (ground arith),
        d,
        count_rows-kept (unverified_delivery i) (delivering_to to) as_verified s.messages
              (λ x h. ground arith) (λ x h. ground arith)
            ∙ one,
      ))

mark_failed-HasLanded :
    (to reason : String) (now : ℕ) (m : Message) (s : Store)
    → IsClaimed to m s
    → HasLanded to m.public_id State.failed (mark_failed m.public_id (Reason.text reason) now s).1
unfolding mark_failed
mark_failed-HasLanded to reason now m s c =
    mark-Landed to m State.failed (as_failed (Reason.text reason) now) s c (λ x e. ground arith)
      (ground (arith, eq_refl m.public_id))

module _ (draws : ℕ → Option String) (now : ℕ) (b : Store) (to : String) where
  pub fail_round-Freed :
      (out : OutcomeOpts) (m : Message) (reason : String) (s : Store)
      → Held b to m s
      → Freed b to (fail_round draws now out m reason s)
  unfolding fail_round
  fail_round-Freed out m reason s (k, c) =
      let t = (mark_failed m.public_id (Reason.text reason) now s).1 in
      (
        Kept-trans
            (Kept-trans k (λ h. moved h (failed-Moves m.public_id (Reason.text reason) now s)))
            (failure_notice-Kept draws now out.notify_on_failed out.agent m "failed" reason t),
        (notice-Landed draws now out.notify_on_failed out.agent m "failed" reason to State.failed t
            (mark_failed-HasLanded to reason now m s c)).0,
      )

  dedupe_notice-Freed :
      (this original : String) (m : Message) (s : Store)
      → Freed b to s
      → Freed b to (insert_dedupe_notice draws now this m original s)
  unfolding insert_dedupe_notice
  dedupe_notice-Freed this original m s (k, z) =
      if_cases (Freed b to) (same_kind m.kind Kind.message)
        (λ _. (
          Kept-trans k (λ h. grown h (insert_notice-Grows draws now _ s)),
          insert_notice-in_flight draws now to _ s ∙ z,
        ))
        (λ _. (k, z))

  absorb-Freed :
      (this original : String) (m : Message) (s : Store)
      → Held b to m s
      → Freed b to (absorb draws now this m original s)
  unfolding absorb
  absorb-Freed this original m s (k, c) =
      let u = (mark_verified_by_dedupe original s).1 in
      dedupe_notice-Freed this original m _ (
        Kept-trans (Kept-trans k (λ h. moved h (verified-Moves original s)))
            (λ h. moved h (failed-Moves m.public_id _ now u)),
        (mark_failed-HasLanded to _ now m u (verified-IsClaimed to original m s c)).0,
      )

  on_match-Ready :
      (this : String) (visible : Option Bool) (m : Message) (prior : Option Message) (pane : String)
      (n : ℕ) (s : Store)
      → Held b to m s
      → Ready b to m (on_match draws now this visible m prior pane n s)
  on_match-Ready this visible m none pane n s h = h
  on_match-Ready this (some true) m (some prior) pane n s h =
      absorb-Freed this prior.public_id m s h
  on_match-Ready this (some false) m (some prior) pane n s h = h
  on_match-Ready this none m (some prior) pane n s h = h

  pub dedupe-Ready :
      (c : PreflightOpts) (this : String) (visible : Option Bool) (m : Message) (pane : String)
      (n : ℕ) (s : Store)
      → Held b to m s
      → Ready b to m (dedupe draws now c this visible m pane n s)
  unfolding dedupe
  dedupe-Ready c this visible m pane n s h =
      if_cases (Ready b to m) (ltb 0 c.dedupe_window)
        (λ _.
          on_match-Ready this visible m
            (find_dedupe_match m.from_agent m.to_agent m.body (now - c.dedupe_window) s) pane n s h)
        (λ _. h)

  pub liveness_gate-Ready :
      (c : PreflightOpts) (out : OutcomeOpts) (a : PreflightAnswers) (m : Message) (n : ℕ)
      (p : String × Store)
      → Held b to m p.1
      → Ready b to m (liveness_gate draws now c out a m n p)
  unfolding liveness_gate
  liveness_gate-Ready c out a m n (pane, s) h =
      if_cases (Ready b to m) a.accepts_paste
        (λ _. dedupe-Ready c out.agent a.token_visible m pane n s h)
        (λ _. fail_round-Freed out m _ s h)
