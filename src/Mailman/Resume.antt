-- ===== src/Mailman/Resume.antt =====
-- internal/cli/serve.go: `planRateLimitResume`, the machine that pastes "continue" into a chamber
-- whose turn a transient rate limit cut off. The backoff is a parameter, as in the source.
use tmux_tell.Common.{
  ℕ, suc, ◌+◌, ◌≤◌, Bool, true, false, not, ltb, leb, if◌then◌else◌, if_cases, List, [], ◌∷◌, ◌≡◌,
  arith,
}

-- `rateLimitResumeState`
pub record ResumeState : Type 0 where
  pub active : Bool
  pub since : ℕ
  pub attempts : ℕ
  pub next_paste_at : ℕ
  pub gave_up : Bool

pub data ResumeAction : Type 0 where
  noop wait paste give_up recovered : ResumeAction

-- What was observed: whether the pane is rate-limited, the hint of the banner (0 for none), the time.
pub record Observation : Type 0 where
  pub rate_limited : Bool
  pub retry_after : ℕ
  pub now : ℕ

abbrev pub no_episode : ResumeState
no_episode = record { active = false; since = 0; attempts = 0; next_paste_at = 0; gave_up = false }

module _ (backoff : ℕ → ℕ → ℕ) (max_attempts : ℕ) where
  -- In an episode that is not given up, at an observation of a rate limit.
  abbrev due : Observation → ResumeState → ResumeAction × ResumeState
  due o rs =
      if ltb o.now rs.next_paste_at
      then (ResumeAction.wait, rs)
      else if leb max_attempts rs.attempts
      then (ResumeAction.give_up, record rs { gave_up = true })
      else (
        ResumeAction.paste,
        record rs {
          attempts = suc rs.attempts;
          next_paste_at = o.now + backoff (suc (suc rs.attempts)) o.retry_after;
        },
      )

  unfoldable pub plan_rate_limit_resume : Observation → ResumeState → ResumeAction × ResumeState
  plan_rate_limit_resume o rs =
      if not o.rate_limited
      then (if rs.active then (ResumeAction.recovered, no_episode) else (ResumeAction.noop, rs))
      else if not rs.active
      then (
        ResumeAction.wait,
        record {
          active = true;
          since = o.now;
          attempts = 0;
          next_paste_at = o.now + backoff 1 o.retry_after;
          gave_up = false;
        },
      )
      else if rs.gave_up
      then (ResumeAction.noop, rs)
      else due o rs

  -- The actions over a number of observations.
  unfoldable pub resume_actions : List Observation → ResumeState → List (ℕ × ResumeAction)
  unfolding plan_rate_limit_resume
  resume_actions [] rs = []
  resume_actions (o ∷ os) rs =
      let (action, after) = plan_rate_limit_resume o rs in (o.now, action) ∷ resume_actions os after

-- Pastes up to the end of the episode.
abbrev pub pastes : List (ℕ × ResumeAction) → ℕ
pastes [] = 0
pastes ((now, ResumeAction.paste) ∷ trace) = suc (pastes trace)
pastes ((now, ResumeAction.recovered) ∷ trace) = 0
pastes ((now, ResumeAction.noop) ∷ trace) = pastes trace
pastes ((now, ResumeAction.wait) ∷ trace) = pastes trace
pastes ((now, ResumeAction.give_up) ∷ trace) = pastes trace

-- A paste is at least `gap` after the one before, and the first at least `gap` after `last`.
abbrev pub Spaced : ℕ → ℕ → List (ℕ × ResumeAction) → Type 0
Spaced gap last [] = Unit
Spaced gap last ((now, ResumeAction.paste) ∷ trace) = (last + gap ≤ now) × Spaced gap now trace
Spaced gap last ((now, ResumeAction.recovered) ∷ trace) = Spaced gap last trace
Spaced gap last ((now, ResumeAction.noop) ∷ trace) = Spaced gap last trace
Spaced gap last ((now, ResumeAction.wait) ∷ trace) = Spaced gap last trace
Spaced gap last ((now, ResumeAction.give_up) ∷ trace) = Spaced gap last trace

-- The clock does not go back.
abbrev pub Forward : ℕ → List Observation → Type 0
Forward last [] = Unit
Forward last (o ∷ os) = (last ≤ o.now) × Forward o.now os

module _ (backoff : ℕ → ℕ → ℕ) (max_attempts : ℕ) where
  abbrev used : ResumeState → ℕ
  used rs = if rs.active then rs.attempts else 0

  pastes-used :
      (os : List Observation) (rs : ResumeState)
      → used rs ≤ max_attempts
      → pastes (resume_actions backoff max_attempts os rs) + used rs ≤ max_attempts
  unfolding resume_actions plan_rate_limit_resume
  pastes-used [] rs h = omega arith
  pastes-used (o ∷ os) rs h =
      let rest = λ (r : ResumeState). pastes-used os r in
      let P = λ (x : ResumeAction × ResumeState).
        pastes ((o.now, x.0) ∷ resume_actions backoff max_attempts os x.1) + used rs
        ≤ max_attempts in
      if_cases P (not o.rate_limited)
        (λ _. if_cases P rs.active (λ _. omega arith) (λ _. rest rs h))
        (λ _.
          if_cases P (not rs.active)
            (λ off. ground (
              arith,
              rest
                  (record {
                    active = true;
                    since = o.now;
                    attempts = 0;
                    next_paste_at = o.now + backoff 1 o.retry_after;
                    gave_up = false;
                  })
                  (omega arith),
            ))
            (λ on.
              if_cases P rs.gave_up (λ _. rest rs h)
                (λ _.
                  if_cases P (ltb o.now rs.next_paste_at) (λ _. rest rs h)
                    (λ _.
                      if_cases P (leb max_attempts rs.attempts)
                        (λ _. rest (record rs { gave_up = true }) h)
                        (λ free.
                          let next = record rs {
                            attempts = suc rs.attempts;
                            next_paste_at = o.now + backoff (suc (suc rs.attempts)) o.retry_after;
                          } in
                          ground (arith, rest next))))))

  -- In an episode, at most `max_attempts` pastes are made, whatever is observed.
  pub resume_actions-bounded :
      (os : List Observation)
      → pastes (resume_actions backoff max_attempts os no_episode) ≤ max_attempts
  resume_actions-bounded os = omega (arith, pastes-used os no_episode (omega arith))

  abbrev Waiting : ℕ → ℕ → ResumeState → Type 0
  Waiting gap last rs = rs.active ≡ true → last + gap ≤ rs.next_paste_at

  pastes-Spaced :
      (gap last seen : ℕ) (os : List Observation) (rs : ResumeState)
      → ((n hint : ℕ) → gap ≤ backoff n hint)
      → last ≤ seen
      → Forward seen os
      → Waiting gap last rs
      → Spaced gap last (resume_actions backoff max_attempts os rs)
  unfolding resume_actions plan_rate_limit_resume
  pastes-Spaced gap last seen [] rs b l f w = tt
  pastes-Spaced gap last seen (o ∷ os) rs b l (n, f) w =
      let rest = λ (r : ResumeState). pastes-Spaced gap last o.now os r b (omega arith) f in
      let P = λ (x : ResumeAction × ResumeState).
        Spaced gap last ((o.now, x.0) ∷ resume_actions backoff max_attempts os x.1) in
      if_cases P (not o.rate_limited)
        (λ _.
          if_cases P rs.active (λ _. rest no_episode (λ e. absurd (ground arith))) (λ _. rest rs w))
        (λ _.
          if_cases P (not rs.active)
            (λ off.
              rest
                (record {
                  active = true;
                  since = o.now;
                  attempts = 0;
                  next_paste_at = o.now + backoff 1 o.retry_after;
                  gave_up = false;
                })
                (λ _. omega (arith, b 1 o.retry_after)))
            (λ on.
              if_cases P rs.gave_up (λ _. rest rs w)
                (λ _.
                  if_cases P (ltb o.now rs.next_paste_at) (λ _. rest rs w)
                    (λ late.
                      if_cases P (leb max_attempts rs.attempts)
                        (λ _. rest (record rs { gave_up = true }) w)
                        (λ free. (
                          ground (arith, w),
                          pastes-Spaced gap o.now o.now os
                              (record rs {
                                attempts = suc rs.attempts;
                                next_paste_at =
                                    o.now + backoff (suc (suc rs.attempts)) o.retry_after;
                              })
                              b (omega arith) f
                              (λ _. omega (arith, b (suc (suc rs.attempts)) o.retry_after)),
                        ))))))

  -- If the backoff is never below a gap and the clock does not go back, then any two pastes, in one
  -- episode or in two, are at least the gap apart, and the first comes at least the gap after the start.
  pub resume_actions-Spaced :
      (gap start : ℕ) (os : List Observation)
      → ((n hint : ℕ) → gap ≤ backoff n hint)
      → Forward start os
      → Spaced gap start (resume_actions backoff max_attempts os no_episode)
  resume_actions-Spaced gap start os b f =
      pastes-Spaced gap start start os no_episode b (omega arith) f (λ e. absurd (ground arith))
