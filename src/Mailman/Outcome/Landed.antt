-- ===== src/Mailman/Outcome/Landed.antt =====
-- After a delivery no message of the agent is in flight, and the message that was has its end.
use tmux_tell.Common.{
  ℕ, String, Bool, true, false, Option, [], ◌∷◌, ◌≡◌, refl, ap, ◌∙◌, arith, if_cases, eq_refl, ltb,
  ◌==◌, ◌&&◌, In, count_rows, any_row, any_row-append, count_rows-pos, count_rows-lt,
  count_rows-kept, any_row-brought, any_row-kept,
}
use tmux_tell.Names.{canonical_name}
use tmux_tell.Store.Tables.{
  State, Kind, Reason, Message, Store, Result, ok, err, is_state, same_kind,
}
use tmux_tell.Store.Insert.{InsertParams, InsertResult, has_public_id}
use tmux_tell.Store.Insert.Operations.{insert_notice}
use tmux_tell.Store.Insert.Notices.{
  Noticed, insert_notice-Noticed, insert_notice-in_flight, notice_row,
}
use tmux_tell.Store.Agents.{increment_respawn_shrink_count}
use tmux_tell.Store.Claim.{delivering_to, recover_delivering, with_state}
use tmux_tell.Store.Claim.Recover.{recover_delivering-Recovers}
use tmux_tell.Store.Deliver.{
  update_or_not_found, in_flight, as_delivered, as_failed, mark_delivered_core, mark_delivered,
  mark_delivered_in_input_box, mark_failed, promote_deferred, waits_for,
}
use tmux_tell.Mailman.Attempt.{notice_params}
use tmux_tell.Mailman.Outcome.{
  Delivery, OutcomeOpts, on_delivery, maybe_insert_failure_notice, promote_resume, count_clear,
  is_session_reset_control, is_clear_control, render_failure_notice_body,
}

-- The state that a delivery ends in.
abbrev pub end_state : Delivery → State
end_state Delivery.verified = State.delivered
end_state Delivery.externally_submitted = State.delivered
end_state Delivery.unverified = State.delivered
end_state Delivery.control_unsupported = State.delivered
end_state Delivery.input_raced = State.queued
end_state Delivery.prior_paste_stuck = State.queued
end_state (Delivery.failed e) = State.failed

abbrev pub ended : String → State → Message → Bool
ended i st m = has_public_id i m && is_state st m

-- Nothing is in flight to the agent, and a row with the public id has the state.
abbrev pub HasLanded : String → String → State → Store → Type 0
HasLanded to i st t =
    (count_rows (delivering_to to) t.messages ≡ 0) × (any_row (ended i st) t.messages ≡ true)

-- The claimed row, the only one in flight to the agent.
abbrev pub IsClaimed : String → Message → Store → Type 0
IsClaimed to m s =
    In m s.messages × (delivering_to to m ≡ true) × (count_rows (delivering_to to) s.messages ≡ 1)

pub mark-Landed :
    (to : String) (m : Message) (st : State) (f : Message → Message) (s : Store)
    → IsClaimed to m s
    → ((x : Message) → in_flight m.public_id x ≡ true → delivering_to to (f x) ≡ false)
    → ended m.public_id st (f m) ≡ true
    → HasLanded to m.public_id st (update_or_not_found (in_flight m.public_id) f s).1
mark-Landed to m st f s (i, d, one) out good =
    let mine : in_flight m.public_id m ≡ true = ground (arith, eq_refl m.public_id) in
    let pos = count_rows-pos (in_flight m.public_id) s.messages m i mine in
    let lt = count_rows-lt (in_flight m.public_id) (delivering_to to) f s.messages m out i mine d in
    let br =
      any_row-brought (in_flight m.public_id) (ended m.public_id st) f s.messages m i mine good in
    if_cases (λ (x : Result (Unit {0}) × Store). HasLanded to m.public_id st x.1)
      (count_rows (in_flight m.public_id) s.messages == 0) (λ z. absurd (ground arith))
      (λ _. (omega arith, br))

recover-Landed :
    (agent : String) (m : Message) (s : Store)
    → IsClaimed (canonical_name agent) m s
    → HasLanded (canonical_name agent) m.public_id State.queued (recover_delivering agent s).1
unfolding recover_delivering
recover-Landed agent m s (i, d, one) = (
  (recover_delivering-Recovers agent s).none_left,
  any_row-brought (delivering_to (canonical_name agent)) (ended m.public_id State.queued)
      (with_state State.queued) s.messages m i d (ground (arith, eq_refl m.public_id)),
)

promote-Landed :
    (agent trigger to i : String) (s : Store)
    → HasLanded to i State.delivered s
    → HasLanded to i State.delivered (promote_deferred agent trigger s).1
unfolding promote_deferred
promote-Landed agent trigger to i s (a, b) =
    let w = waits_for (canonical_name agent) trigger in
    let x =
      count_rows-kept w (delivering_to to) (with_state State.queued) s.messages
        (λ x h. ground arith) (λ x h. ground arith) in
    let y =
      any_row-kept w (ended i State.delivered) (with_state State.queued) s.messages
        (λ x h. ground arith) b in
    if_cases (HasLanded to i State.delivered) (ltb 0 (count_rows w s.messages)) (λ _. (x ∙ a, y))
      (λ _. (x ∙ a, y))

increment-messages :
    (agent : String) (s : Store) → (increment_respawn_shrink_count agent s).1.messages ≡ s.messages
unfolding increment_respawn_shrink_count
increment-messages agent s = ground arith

count_clear-messages :
    (o : OutcomeOpts) (m : Message) (s : Store) → (count_clear o m s).messages ≡ s.messages
unfolding count_clear
count_clear-messages o m s =
    if_cases (λ (t : Store). t.messages ≡ s.messages)
      (is_clear_control m && ltb 0 o.respawn_after_shrinks) (λ _. increment-messages o.agent s)
      (λ _. refl)

promote_resume-Landed :
    (o : OutcomeOpts) (m : Message) (to i : String) (s : Store)
    → HasLanded to i State.delivered s
    → HasLanded to i State.delivered (promote_resume o m s)
unfolding promote_resume
promote_resume-Landed o m to i s h =
    if_cases (HasLanded to i State.delivered) (is_session_reset_control m)
      (λ _. promote-Landed o.agent "resume" to i s h) (λ _. h)

any_row-Noticed :
    (q : Message → Bool) (params : InsertParams) (now : ℕ) (s : Store)
    (x : Result InsertResult × Store)
    → Noticed params now s x
    → any_row q s.messages ≡ true
    → any_row q x.1.messages ≡ true
any_row-Noticed q params now s (ok r, t) (e, a) h =
    rw e (any_row-append q s.messages (notice_row params now r.public_id s ∷ []) ∙ rw h refl)
any_row-Noticed q params now s (err x, t) (e, a) h = rw e h

module _ (draws : ℕ → Option String) (now : ℕ) where
  pub notice-Landed :
      (enabled : Bool) (this : String) (m : Message) (kind reason to : String) (st : State)
      (s : Store)
      → HasLanded to m.public_id st s
      → HasLanded to m.public_id st
          (maybe_insert_failure_notice draws now enabled this m kind reason s)
  unfolding maybe_insert_failure_notice
  notice-Landed enabled this m kind reason to st s (a, b) =
      let p =
        notice_params this m.from_agent (render_failure_notice_body m kind reason)
          Kind.delivery_failure_notice in
      if_cases (HasLanded to m.public_id st) enabled
        (λ _.
          if_cases (HasLanded to m.public_id st) (same_kind m.kind Kind.delivery_failure_notice)
            (λ _. (a, b))
            (λ _. (
              insert_notice-in_flight draws now to p s ∙ a,
              any_row-Noticed (ended m.public_id st) p now s (insert_notice draws now p s)
                  (insert_notice-Noticed draws now p s) b,
            )))
        (λ _. (a, b))

  -- Where the message is the only one in flight to the mailman's agent, then after the round none is,
  -- whatever `deliverOne` returned; a row with its public id is delivered, failed, or queued again just
  -- as the class of the error says.
  pub on_delivery-Landed :
      (o : OutcomeOpts) (d : Delivery) (m : Message) (s : Store)
      → IsClaimed (canonical_name o.agent) m s
      → HasLanded
          (canonical_name o.agent)
          m.public_id
          (end_state d)
          (on_delivery draws now o d m s).1
  unfolding on_delivery mark_delivered mark_delivered_in_input_box mark_delivered_core mark_failed
  on_delivery-Landed o Delivery.verified m s c =
      let to = canonical_name o.agent in
      let t = (mark_delivered m.public_id now s).1 in
      let h : HasLanded to m.public_id State.delivered t =
        mark-Landed to m State.delivered (as_delivered true now) s c (λ x e. ground arith)
          (ground (arith, eq_refl m.public_id)) in
      let q = count_clear-messages o m (promote_resume o m t) in
      let (a, b) = promote_resume-Landed o m to m.public_id t h in
      (
        ap (count_rows (delivering_to to)) q ∙ a,
        ap (any_row (ended m.public_id State.delivered)) q ∙ b,
      )
  on_delivery-Landed o Delivery.externally_submitted m s c =
      mark-Landed (canonical_name o.agent) m State.delivered (as_delivered true now) s c
        (λ x e. ground arith) (ground (arith, eq_refl m.public_id))
  on_delivery-Landed o Delivery.control_unsupported m s c =
      mark-Landed (canonical_name o.agent) m State.delivered (as_delivered true now) s c
        (λ x e. ground arith) (ground (arith, eq_refl m.public_id))
  on_delivery-Landed o Delivery.unverified m s c =
      notice-Landed o.notify_on_delivered_in_input_box o.agent m _ _ (canonical_name o.agent)
        State.delivered _
        (mark-Landed (canonical_name o.agent) m State.delivered (as_delivered false now) s c
          (λ x e. ground arith) (ground (arith, eq_refl m.public_id)))
  on_delivery-Landed o Delivery.input_raced m s c = recover-Landed o.agent m s c
  on_delivery-Landed o Delivery.prior_paste_stuck m s c = recover-Landed o.agent m s c
  on_delivery-Landed o (Delivery.failed e) m s c =
      notice-Landed o.notify_on_failed o.agent m _ _ (canonical_name o.agent) State.failed _ (
        mark-Landed (canonical_name o.agent) m State.failed (as_failed (Reason.text e) now) s c
          (λ x e. ground arith) (ground (arith, eq_refl m.public_id)))
