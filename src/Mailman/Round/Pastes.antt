-- ===== src/Mailman/Round/Pastes.antt =====
-- An attempt keeps the claimed message in flight up to the paste.
use tmux_tell.Common.{
  ℕ, String, Option, none, some, List, [], ◌∷◌, ◌++◌, ◌∙◌, inl, inr, if_cases, In, str_eq, ltb, leb,
  ◌&&◌,
}
use tmux_tell.Gate.{PaneState, GateOutcome}
use tmux_tell.Store.Tables.{Message, Store, Result, ok, err}
use tmux_tell.Store.Claim.{recover_delivering}
use tmux_tell.Store.Insert.{InsertParams, InsertResult}
use tmux_tell.Store.Insert.Operations.{insert_notice}
use tmux_tell.Store.Insert.Notices.{Noticed, notice_row, insert_notice-Noticed}
use tmux_tell.Store.Tables.{Kind}
use tmux_tell.Mailman.Attempt.{
  ServeOpts, LoopVars, Verdict, Prepared, Answers, ProbeFailure, attempt, gate_verdict,
  after_verdict, clear_limits, pre_paste_check, on_pane_gone, unsafe_for, flush_draft,
  flushed_after, archive_stranded_draft, archives, Flush, notice_params, render_stranded_draft_body,
  count_pane_fail,
}
use tmux_tell.Mailman.Attempt.Pastes.{flush_draft-in_flight}
use tmux_tell.Mailman.Outcome.Landed.{IsClaimed}

In-append : {A : Type 0} (xs ys : List A) (x : A) → In x xs → In x (xs ++ ys)
In-append [] ys x i = absurd i
In-append (z ∷ xs) ys x (inl e) = inl e
In-append (z ∷ xs) ys x (inr i) = inr (In-append xs ys x i)

In-Noticed :
    (params : InsertParams) (now : ℕ) (m : Message) (s : Store) (x : Result InsertResult × Store)
    → Noticed params now s x
    → In m s.messages
    → In m x.1.messages
In-Noticed params now m s (ok r, t) (e, a) i =
    rw e (In-append s.messages (notice_row params now r.public_id s ∷ []) m i)
In-Noticed params now m s (err x, t) (e, a) i = rw e i

-- What an attempt that comes to the paste leaves.
abbrev pub AtPaste : (Store → Type 0) → Verdict → Store → Type 0
AtPaste P Verdict.goes_on t = P t
AtPaste P Verdict.stops t = Unit
AtPaste P Verdict.parks t = Unit
AtPaste P (Verdict.retries_after d) t = Unit

abbrev pub Pastes : (Store → Type 0) → Prepared → Type 0
Pastes P r = AtPaste P r.verdict r.store

on_pane_gone-Pastes :
    (P : Store → Type 0) (o : ServeOpts) (m : Message) (v : LoopVars) (s : Store)
    → Pastes P (on_pane_gone o m v s)
unfolding on_pane_gone
on_pane_gone-Pastes P o m v s =
    if_cases (Pastes P)
      (ltb 0 o.stuck_threshold
        && leb o.stuck_threshold (count_pane_fail m.public_id v).consecutive_pane_fails)
      (λ _. tt) (λ _. tt)

pre_paste_check-Pastes :
    (P : Store → Type 0) (o : ServeOpts) (st : PaneState) (f : Option ProbeFailure) (m : Message)
    (v : LoopVars) (s : Store)
    → P s
    → Pastes P (pre_paste_check o st f m v s)
unfolding pre_paste_check
pre_paste_check-Pastes P o st none m v s h =
    if_cases (Pastes P) o.pre_paste_safety_disabled (λ _. h)
      (λ _. if_cases (Pastes P) (unsafe_for m st) (λ _. tt) (λ _. h))
pre_paste_check-Pastes P o st (some ProbeFailure.pane_gone) m v s h =
    if_cases (Pastes P) o.pre_paste_safety_disabled (λ _. h)
      (λ _. on_pane_gone-Pastes P o m v (recover_delivering o.agent s).1)
pre_paste_check-Pastes P o st (some ProbeFailure.other_failure) m v s h =
    if_cases (Pastes P) o.pre_paste_safety_disabled (λ _. h) (λ _. tt)

after_verdict-Pastes :
    (P : Store → Type 0) (o : ServeOpts) (g : Verdict × LoopVars) (s : Store) (next : Prepared)
    → Pastes P next
    → Pastes P (after_verdict o g s next)
after_verdict-Pastes P o (Verdict.goes_on, v) s next h = h
after_verdict-Pastes P o (Verdict.stops, v) s next h = tt
after_verdict-Pastes P o (Verdict.parks, v) s next h = tt
after_verdict-Pastes P o (Verdict.retries_after d, v) s next h = tt

module _ (wake_delay : ℕ → ℕ → ℕ) (draws : ℕ → Option String) (now : ℕ) (binary_name : String) where
  In-archived :
      (agent pane trigger content : String) (m : Message) (s : Store)
      → In m s.messages
      → In m
          (flushed_after content
            (archive_stranded_draft draws now binary_name agent pane trigger content s)).1.messages
  unfolding archive_stranded_draft
  In-archived agent pane trigger content m s i =
      let p =
        notice_params agent agent (render_stranded_draft_body binary_name pane trigger content)
          Kind.stranded_draft in
      In-Noticed p now m s (insert_notice draws now p s) (insert_notice-Noticed draws now p s) i

  In-flush_draft :
      (agent pane : String) (fresh : Option String) (out : GateOutcome) (m : Message) (s : Store)
      → In m s.messages
      → In m (flush_draft draws now binary_name agent pane fresh out m s).1.messages
  unfolding flush_draft
  In-flush_draft agent pane none out m s i =
      if_cases (λ (x : Flush × Store). In m x.1.messages) (archives out m)
        (λ _. In-archived agent pane m.public_id out.input_content m s i) (λ _. i)
  In-flush_draft agent pane (some c) out m s i =
      if_cases (λ (x : Flush × Store). In m x.1.messages) (archives out m)
        (λ _.
          if_cases (λ (x : Flush × Store). In m x.1.messages) (str_eq c "") (λ _. i)
            (λ _. In-archived agent pane m.public_id c m s i))
        (λ _. i)

  -- At the paste the claimed message is still the only one in flight.
  pub attempt-IsClaimed :
      (to : String) (o : ServeOpts) (pane : String) (a : Answers) (m : Message) (v : LoopVars)
      (s : Store)
      → IsClaimed to m s
      → Pastes (IsClaimed to m) (attempt wake_delay draws now binary_name o pane a m v s)
  unfolding attempt
  attempt-IsClaimed to o pane a m v s (i, d, one) =
      let g = gate_verdict wake_delay o a.canceled a.outcome a.gate_error m v in
      let t = (flush_draft draws now binary_name o.agent pane a.fresh a.outcome m s).1 in
      let n =
        flush_draft-in_flight wake_delay draws now binary_name o.agent pane to a.fresh a.outcome m
          s in
      if_cases (Pastes (IsClaimed to m)) o.gate_disabled
        (λ _. pre_paste_check-Pastes (IsClaimed to m) o a.probe a.probe_failure m v s (i, d, one))
        (λ _.
          after_verdict-Pastes (IsClaimed to m) o g s
            (pre_paste_check o a.probe a.probe_failure m (clear_limits m g.1) t)
            (pre_paste_check-Pastes (IsClaimed to m) o a.probe a.probe_failure m
              (clear_limits m g.1) t
              (In-flush_draft o.agent pane a.fresh a.outcome m s i, d, n ∙ one)))
