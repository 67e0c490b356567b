-- ===== src/Gate/Stale.antt =====
-- What one round of `ObserveGate` does with the draft that it watches.
use tmux_tell.Common.{
  ℕ, suc, ◌+◌, ◌-◌, ◌≤◌, ◌<◌, String, Bool, true, false, not, Option, none, some, List, [], ◌∷◌,
  ◌++◌, ◌≡◌, ◌⊎◌, inl, inr, refl, arith, leb, ltb, if◌then◌else◌, if_cases, ◌&&◌, ◌||◌, str_eq, min,
  All, or-false, not-false,
}
use tmux_tell.Gate.{
  PaneState, GateOpts, Poll, GateError, GateOutcome, GateState, GateStep, returns, sleeps,
  content_of, gate_step, copy_mode_query_fail_defer_threshold, is_in_copy_mode, trusted_state,
  counted, cap, on_state, on_awaiting, outcome_of, watch, nudge, stamp, grow, on_query,
}

abbrev pub is_awaiting : PaneState → Bool
is_awaiting PaneState.awaiting_operator = true
is_awaiting _ = false

-- A poll that shows a draft.
abbrev pub shows_draft : Poll → Bool
shows_draft p = is_awaiting (trusted_state p.copy_mode_query_failed p.state)

-- Polls without a draft aside, the draft has this hash.
abbrev pub shows_only : (String → String) → String → Poll → Bool
shows_only hash_content h p = not (shows_draft p) || str_eq (hash_content (content_of p.content)) h

abbrev pub is_stale : Option (GateOutcome × Option GateError) → Bool
is_stale none = false
is_stale (some (out, none)) = out.stale
is_stale (some (out, some e)) = false

module _ (scale : ℕ → ℕ) (hash_content : String → String) (o : GateOpts) (deadline : ℕ) where
  -- From a state that has seen the hash h since t: the draft stayed until some poll p decided.
  abbrev pub Held : String → ℕ → List Poll → Type 0
  Held h t ps =
      (mid : List Poll) × (p : Poll) × (after : List Poll) × (ps ≡ mid ++ p ∷ after)
      × (shows_draft p ≡ true)
      × (str_eq h "" ≡ false)
      × All (λ x. shows_only hash_content h x ≡ true) (mid ++ p ∷ [])
      × (t + o.input_stale_threshold ≤ p.now)

  abbrev pub Fresh : List Poll → Type 0
  Fresh ps =
      (before : List Poll) × (q : Poll) × (rest : List Poll) × (ps ≡ before ++ q ∷ rest)
      × (shows_draft q ≡ true)
      × Held (hash_content (content_of q.content)) q.now rest

  -- What a step that sleeps leaves of the watch, and what a stale outcome means.
  abbrev pub OnDraft : Poll → GateState → GateStep → Type 0
  OnDraft p g (returns out err h) =
      (is_stale (some (out, err)) ≡ false)
      ⊎ ((shows_draft p ≡ true)
          × (str_eq (hash_content (content_of p.content)) g.hash_seen ≡ true)
          × (str_eq g.hash_seen "" ≡ false)
          × (g.hash_seen_at + o.input_stale_threshold ≤ p.now))
  OnDraft p g (sleeps d h) =
      ((shows_only hash_content g.hash_seen p ≡ true)
        × (h.hash_seen ≡ g.hash_seen)
        × (h.hash_seen_at ≡ g.hash_seen_at))
      ⊎ ((shows_draft p ≡ true)
          × (h.hash_seen ≡ hash_content (content_of p.content))
          × (h.hash_seen_at ≡ p.now))

  -- The cap reports no staleness.
  cap-OnDraft :
      (st : PaneState) (p : Poll) (g : GateState) (w : GateState)
      → ((d : ℕ) (i : ℕ) → OnDraft p g (sleeps d (record w { poll_interval = i })))
      → OnDraft p g (cap scale hash_content o deadline st p w)
  cap-OnDraft st p g w rest =
      if_cases (OnDraft p g) (ltb deadline p.checked_at)
        (λ _.
          if_cases (OnDraft p g) (is_in_copy_mode st) (λ _. inl refl)
            (λ _.
              if_cases (OnDraft p g) (ltb 0 w.copy_mode_fail_run) (λ _. inl refl) (λ _. inl refl)))
        (λ f.
          if_cases (OnDraft p g) p.cancelled (λ _. inl refl)
            (λ _.
              rest (min w.poll_interval (deadline - p.checked_at))
                (grow scale hash_content o w.poll_interval)))

  -- The watch either kept a known hash, or took that of the poll at its time.
  abbrev Watched : Poll → GateState → GateState → Type 0
  Watched p g w =
      ((str_eq (hash_content (content_of p.content)) g.hash_seen ≡ true)
        × (str_eq g.hash_seen "" ≡ false)
        × (w.hash_seen ≡ g.hash_seen)
        × (w.hash_seen_at ≡ g.hash_seen_at))
      ⊎ ((w.hash_seen ≡ hash_content (content_of p.content)) × (w.hash_seen_at ≡ p.now))

  kept_or_taken :
      (p : Poll) (g : GateState)
      → Watched p g (watch scale hash_content o (content_of p.content) p.now g)
  kept_or_taken p g =
      let hash = hash_content (content_of p.content) in
      if_cases (Watched p g) (str_eq g.hash_seen "" || not (str_eq hash g.hash_seen))
        (λ _. inr (refl, refl))
        (λ f.
          let (a, b) = or-false (str_eq g.hash_seen "") (not (str_eq hash g.hash_seen)) f in
          inl (not-false (str_eq hash g.hash_seen) b, a, refl, refl))

  watch-Watched :
      (p : Poll) (g : GateState)
      → Watched p g (watch scale hash_content o (content_of p.content) p.now (nudge o g))
  watch-Watched p g =
      if_cases
        (λ (n : GateState). Watched p g (watch scale hash_content o (content_of p.content) p.now n))
        (not g.notified_of_typing && o.notifies)
        (λ _. kept_or_taken p (record g { notified_of_typing = true; nudges = suc g.nudges }))
        (λ _. kept_or_taken p g)

  on_awaiting-OnDraft :
      (p : Poll) (g : GateState)
      → 0 < o.input_stale_threshold
      → shows_draft p ≡ true
      → OnDraft p g (on_awaiting scale hash_content o deadline p g)
  on_awaiting-OnDraft p g pos draft =
      go (watch scale hash_content o (content_of p.content) p.now (nudge o g)) (watch-Watched p g)
    where
      go :
          (w : GateState)
          → Watched p g w
          → OnDraft p g (
              if leb o.input_stale_threshold (p.now - w.hash_seen_at)
              then returns
                  (record (outcome_of PaneState.awaiting_operator w) {
                    stale = true;
                    input_content = content_of p.content;
                  })
                  none
                  w
              else cap scale hash_content o deadline PaneState.awaiting_operator p w)
      go w (inl (same, known, e, at)) =
          if_cases (OnDraft p g) (leb o.input_stale_threshold (p.now - w.hash_seen_at))
            (λ t. inr (draft, same, known, ground arith))
            (λ _.
              cap-OnDraft PaneState.awaiting_operator p g w
                (λ d i. inl (rw (draft, same) refl, e, at)))
      go w (inr (e, at)) =
          if_cases (OnDraft p g) (leb o.input_stale_threshold (p.now - w.hash_seen_at))
            (λ t. absurd (ground arith))
            (λ _. cap-OnDraft PaneState.awaiting_operator p g w (λ d i. inr (draft, e, at)))

  -- A branch that reads no draft.
  idle_cap-OnDraft :
      (st : PaneState) (p : Poll) (g w : GateState)
      → shows_draft p ≡ false
      → w.hash_seen ≡ g.hash_seen
      → w.hash_seen_at ≡ g.hash_seen_at
      → OnDraft p g (cap scale hash_content o deadline st p w)
  idle_cap-OnDraft st p g w none_shown e at =
      cap-OnDraft st p g w (λ d i. inl (rw none_shown refl, e, at))

  on_state-OnDraft :
      (st : PaneState) (p : Poll) (g : GateState)
      → 0 < o.input_stale_threshold
      → shows_draft p ≡ is_awaiting st
      → OnDraft p g (on_state scale hash_content o deadline st p g)
  on_state-OnDraft PaneState.idle p g pos s = inl refl
  on_state-OnDraft PaneState.rate_limited p g pos s = inl refl
  on_state-OnDraft PaneState.usage_limited p g pos s = inl refl
  on_state-OnDraft PaneState.awaiting_operator p g pos s = on_awaiting-OnDraft p g pos s
  on_state-OnDraft PaneState.working p g pos s =
      if_cases (OnDraft p g) o.working_deliver_immediately (λ _. inl refl)
        (λ _. idle_cap-OnDraft PaneState.working p g g s refl refl)
  on_state-OnDraft PaneState.in_copy_mode p g pos s =
      idle_cap-OnDraft PaneState.in_copy_mode p g
        (record g { first_copy_mode_at = stamp p.now g.first_copy_mode_at }) s refl refl
  on_state-OnDraft PaneState.at_rest_in_compaction p g pos s =
      idle_cap-OnDraft PaneState.at_rest_in_compaction p g g s refl refl
  on_state-OnDraft PaneState.unknown p g pos s =
      idle_cap-OnDraft PaneState.unknown p g g s refl refl
  on_state-OnDraft PaneState.errored p g pos s =
      idle_cap-OnDraft PaneState.errored p g g s refl refl

  on_query-OnDraft :
      (b : Bool) (p : Poll) (g : GateState)
      → 0 < o.input_stale_threshold
      → shows_draft p ≡ is_awaiting (trusted_state b p.state)
      → OnDraft p g (on_query scale hash_content o deadline b p g)
  on_query-OnDraft true p g pos s =
      if_cases (OnDraft p g) (leb copy_mode_query_fail_defer_threshold (suc g.copy_mode_fail_run))
        (λ _. inl refl)
        (λ _.
          on_state-OnDraft PaneState.unknown p
            (record g { copy_mode_fail_run = suc g.copy_mode_fail_run }) pos s)
  on_query-OnDraft false p g pos s =
      on_state-OnDraft p.state p (record g { copy_mode_fail_run = 0 }) pos s

  pub gate_step-OnDraft :
      (p : Poll) (g : GateState)
      → 0 < o.input_stale_threshold
      → OnDraft p g (gate_step scale hash_content o deadline p g)
  unfolding gate_step
  gate_step-OnDraft p g pos =
      if_cases (OnDraft p g) p.failed (λ _. inl refl)
        (λ _. on_query-OnDraft p.copy_mode_query_failed p (counted g) pos refl)
