-- ===== src/Gate/Drafts.antt =====
-- A draft that `ObserveGate` reports as stale has been the same for the whole threshold.
use tmux_tell.Common.{
  ℕ, ◌+◌, ◌<◌, String, true, some, List, [], ◌∷◌, ◌≡◌, ◌⊎◌, inl, inr, refl, arith, ap, ◌∙◌,
}
use tmux_tell.Gate.Safety.{observe_gate-run}
use tmux_tell.Gate.Stale.{shows_only, is_stale, Held, Fresh, OnDraft, gate_step-OnDraft}
use tmux_tell.Gate.{
  GateOpts, Poll, GateState, GateStep, returns, sleeps, gate_step, gate_loop, GateRun, after_step,
  observe_gate, with_defaults, first_round,
}

module _ (scale : ℕ → ℕ) (hash_content : String → String) where
  module _ (o : GateOpts) (deadline : ℕ) where
    Held-later :
        (h : String) (t : ℕ) (p : Poll) (ps : List Poll)
        → shows_only hash_content h p ≡ true
        → Held scale hash_content o deadline h t ps
        → Held scale hash_content o deadline h t (p ∷ ps)
    Held-later h t p ps s (mid, q, after, e, d, k, a, l) =
        (p ∷ mid, q, after, ap (λ (w : List Poll). p ∷ w) e, d, k, (s, a), l)

    Fresh-later :
        (p : Poll) (ps : List Poll)
        → Fresh scale hash_content o deadline ps
        → Fresh scale hash_content o deadline (p ∷ ps)
    Fresh-later p ps (before, q, rest, e, d, held) =
        (p ∷ before, q, rest, ap (λ (w : List Poll). p ∷ w) e, d, held)

    gate_loop-Held :
        (ps : List Poll) (g : GateState)
        → 0 < o.input_stale_threshold
        → is_stale (gate_loop scale hash_content o deadline ps g).outcome ≡ true
        → Held scale hash_content o deadline g.hash_seen g.hash_seen_at ps
          ⊎ Fresh scale hash_content o deadline ps
    unfolding gate_loop
    gate_loop-Held [] g pos stale = absurd (ground arith)
    gate_loop-Held (p ∷ ps) g pos stale =
        go (gate_step scale hash_content o deadline p g)
          (gate_step-OnDraft scale hash_content o deadline p g pos)
          (λ h s. gate_loop-Held ps h pos s) stale
      where
        slept :
            (h : GateState)
            → OnDraft scale hash_content o deadline p g (sleeps 0 h)
            → Held scale hash_content o deadline h.hash_seen h.hash_seen_at ps
              ⊎ Fresh scale hash_content o deadline ps
            → Held scale hash_content o deadline g.hash_seen g.hash_seen_at (p ∷ ps)
              ⊎ Fresh scale hash_content o deadline (p ∷ ps)
        slept h k (inr fresh) = inr (Fresh-later p ps fresh)
        slept h (inl (s, e, at)) (inl held) =
            inl (Held-later g.hash_seen g.hash_seen_at p ps s (rw (e, at) at held))
        slept h (inr (d, e, at)) (inl held) = inr ([], p, ps, refl, d, rw (e, at) at held)

        go :
            (s : GateStep)
            → OnDraft scale hash_content o deadline p g s
            → ((h : GateState)
                → is_stale (gate_loop scale hash_content o deadline ps h).outcome ≡ true
                → Held scale hash_content o deadline h.hash_seen h.hash_seen_at ps
                  ⊎ Fresh scale hash_content o deadline ps)
            → is_stale (after_step s (λ h. gate_loop scale hash_content o deadline ps h)).outcome
              ≡ true
            → Held scale hash_content o deadline g.hash_seen g.hash_seen_at (p ∷ ps)
              ⊎ Fresh scale hash_content o deadline (p ∷ ps)
        go (returns out err h) (inl f) rest stale = absurd (ground arith)
        go (returns out err h) (inr (d, s, k, l)) rest stale =
            inl ([], p, ps, refl, d, k, (rw (d, s) refl, tt), l)
        go (sleeps d h) k rest stale = slept h k (rest h stale)

  with_defaults-threshold : (opts : GateOpts) → 0 < (with_defaults opts).input_stale_threshold
  unfolding with_defaults
  with_defaults-threshold opts = ground arith

  -- Where the gate reports a stale draft, two of its polls, at least the threshold apart, showed the
  -- draft, and each poll between them that showed a draft showed the one with the same hash.
  pub observe_gate-Fresh :
      (pane : String) (opts : GateOpts) (started : ℕ) (polls : List Poll) (run : GateRun)
      → observe_gate scale hash_content pane opts started polls ≡ some run
      → is_stale run.outcome ≡ true
      → Fresh scale hash_content
          (with_defaults opts)
          (started + (with_defaults opts).max_wait)
          polls
  observe_gate-Fresh pane opts started polls run h stale =
      let o = with_defaults opts in
      let q = observe_gate-run scale hash_content pane opts started polls run h in
      elim (gate_loop-Held o (started + o.max_wait) polls (first_round o)
        (with_defaults-threshold opts) (ap (λ (r : GateRun). is_stale r.outcome) q ∙ stale)) [
          | inl (mid, p, after, e, d, k, a, l) ↦ absurd (ground (arith, k))
          | inr fresh ↦ fresh
        ]
