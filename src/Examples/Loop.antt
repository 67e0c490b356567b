-- ===== src/Examples/Loop.antt =====
-- The theorems on the mailman's loop and on the fan-out at concrete times and pools.
use tmux_tell.Common.{ℕ, ◌≤◌, true, false, some, String, List, [], ◌∷◌, ◌≡◌, refl, arith}
use tmux_tell.Mailman.Backoff.{pane_not_found_backoff, rate_limit_backoff, backoff-lapse}
use tmux_tell.Mailman.Spin.{trips, trips-Paced}
use tmux_tell.Mailman.Resume.{
  Observation, no_episode, pastes, Spaced, resume_actions, resume_actions-bounded,
  resume_actions-Spaced,
}
use tmux_tell.Fanout.{throttle_for_pool, fanout_stagger_offsets}
use tmux_tell.Fanout.Bounds.{released_at_once, fanout_stagger_offsets-burst}

lapse_example : (pane_not_found_backoff 56 ≡ 0) × (rate_limit_backoff 56 ≡ 0)
lapse_example = backoff-lapse 56 (omega arith) (omega arith)

paced_example :
    trips
      ((false, 300) ∷ (false, 600) ∷ (true, 900) ∷ (false, 1200) ∷ [])
      (record { threshold = 50; window = 1000; count = 0; window_start = 0 })
    ≡ false
paced_example =
    trips-Paced 50 1000 250 0 ((false, 300) ∷ (false, 600) ∷ (true, 900) ∷ (false, 1200) ∷ [])
      (omega arith) (omega arith, (omega arith, (omega arith, (omega arith, tt))))

abbrev constant_backoff : ℕ → ℕ → ℕ
constant_backoff n hint = 30

abbrev limited : List Observation
limited =
    record { rate_limited = true; retry_after = 0; now = 5 }
    ∷ record { rate_limited = true; retry_after = 0; now = 40 }
    ∷ record { rate_limited = true; retry_after = 0; now = 80 }
    ∷ []

resume_example : pastes (resume_actions constant_backoff 3 limited no_episode) ≤ 3
resume_example = resume_actions-bounded constant_backoff 3 limited

thirty : (n hint : ℕ) → 30 ≤ constant_backoff n hint
thirty n hint = omega arith

gap_example : Spaced 30 0 (resume_actions constant_backoff 3 limited no_episode)
gap_example =
    resume_actions-Spaced constant_backoff 3 30 0 limited thirty
      (omega arith, (omega arith, (omega arith, tt)))

abbrev crew : List String
crew = "openai" ∷ "openai" ∷ "anthropic" ∷ "openai" ∷ "" ∷ []

openai_pool : throttle_for_pool "openai" ≡ some (record { threshold = 2; delay = 1500 })
unfolding throttle_for_pool
openai_pool = refl

pool_example : released_at_once "openai" crew (fanout_stagger_offsets crew) ≤ 2
pool_example =
    fanout_stagger_offsets-burst "openai" (record { threshold = 2; delay = 1500 }) crew openai_pool
