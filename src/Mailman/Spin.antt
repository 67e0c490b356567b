-- ===== src/Mailman/Spin.antt =====
-- internal/cli/spinguard.go: the guard that stops a mailman whose loop does not sleep.
use native.Mathlib.Nat.{suc-mul}
use tmux_tell.Common.{
  ℕ, suc, ◌+◌, ◌-◌, ◌*◌, ◌≤◌, ◌<◌, Bool, true, false, ◌||◌, ltb, ◌==◌, if◌then◌else◌, if_cases,
  List, [], ◌∷◌, ◌≡◌, refl, arith, length, All, ap, ◌≢◌, map,
}

-- A threshold that is not positive is 0.
pub record SpinGuard : Type 0 where
  pub threshold : ℕ
  pub window : ℕ
  pub count : ℕ
  pub window_start : ℕ

-- `record`, on an iteration at the time `now`.
unfoldable pub record_iteration : Bool → ℕ → SpinGuard → Bool × SpinGuard
record_iteration progress now g =
    if g.threshold == 0
    then (false, g)
    else if progress
    then (false, record g { count = 0 })
    else if g.count == 0 || ltb g.window (now - g.window_start)
    then (false, record g { count = 1; window_start = now })
    else (ltb g.threshold (suc g.count), record g { count = suc g.count })

-- Iterations of the loop, each with its progress and its time, up to the one that is a violation.
unfoldable pub trips : List (Bool × ℕ) → SpinGuard → Bool
unfolding record_iteration
trips [] g = false
trips ((progress, now) ∷ its) g =
    let (violation, h) = record_iteration progress now g in
    let rest = trips its h in if violation then true else rest

-- Each iteration is at least `pace` after the one before.
abbrev pub Paced : ℕ → ℕ → List (Bool × ℕ) → Type 0
Paced pace last [] = Unit
Paced pace last ((progress, now) ∷ its) = (last + pace ≤ now) × Paced pace now its

-- The counter is within the threshold, and the window began long enough ago for what it counts.
record Steady (pace last : ℕ) (g : SpinGuard) : Type 0 where
  few : g.count ≤ g.threshold
  began : g.window_start + g.count * pace ≤ last + pace

-- An iteration that is no violation leaves the guard steady, with its settings.
record Calm (pace now : ℕ) (g : SpinGuard) (r : Bool × SpinGuard) : Type 0 where
  quiet : r.0 ≡ false
  steady : Steady pace now r.1
  same_threshold : r.1.threshold ≡ g.threshold
  same_window : r.1.window ≡ g.window

module _ (pace last now : ℕ) (g : SpinGuard) where
  Calm-counted :
      Steady pace last g
      → last + pace ≤ now
      → g.window < g.threshold * pace
      → (g.count == 0 || ltb g.window (now - g.window_start)) ≡ false
      → Calm pace now g (ltb g.threshold (suc g.count), record g { count = suc g.count })
  Calm-counted s late slow f =
      let in_window : now - g.window_start ≤ g.window = ground arith in
      let more = suc-mul g.count pace in
      let not_full : g.count ≢ g.threshold =
        λ e. let m = ap (λ c. c * pace) e in let b = s.began in omega arith in
      let few = s.few in
      let began = s.began in
      let below : g.count < g.threshold = omega arith in
      record {
        quiet = ground arith;
        steady = record { few = omega arith; began = omega arith };
        same_threshold = refl;
        same_window = refl;
      }

  Calm-iteration :
      (progress : Bool)
      → Steady pace last g
      → last + pace ≤ now
      → g.window < g.threshold * pace
      → Calm pace now g (record_iteration progress now g)
  unfolding record_iteration
  Calm-iteration progress s late slow =
      let began = s.began in
      let few = s.few in
      if_cases (Calm pace now g) (g.threshold == 0)
        (λ t. record {
          quiet = refl;
          steady = record { few = few; began = omega arith };
          same_threshold = refl;
          same_window = refl;
        })
        (λ on.
          if_cases (Calm pace now g) progress
            (λ _. record {
              quiet = refl;
              steady = record { few = omega arith; began = omega arith };
              same_threshold = refl;
              same_window = refl;
            })
            (λ _.
              if_cases (Calm pace now g) (g.count == 0 || ltb g.window (now - g.window_start))
                (λ _. record {
                  quiet = refl;
                  steady = record { few = ground arith; began = omega arith };
                  same_threshold = refl;
                  same_window = refl;
                })
                (Calm-counted s late slow)))

Paced-quiet :
    (pace last : ℕ) (its : List (Bool × ℕ)) (g : SpinGuard)
    → Steady pace last g
    → g.window < g.threshold * pace
    → Paced pace last its
    → trips its g ≡ false
unfolding trips
Paced-quiet pace last [] g s slow h = refl
Paced-quiet pace last ((progress, now) ∷ its) g s slow (late, h) =
    let c = Calm-iteration pace last now g progress s late slow in
    let slow' : (record_iteration progress now g).1.window
        < (record_iteration progress now g).1.threshold * pace =
      rw (c.same_window, c.same_threshold) slow in
    rw c.quiet (Paced-quiet pace now its (record_iteration progress now g).1 c.steady slow' h)

-- A loop whose iterations are so far apart that a window holds less than the threshold of them never
-- trips a fresh guard, whether they make progress or not.
pub trips-Paced :
    (threshold window pace start : ℕ) (its : List (Bool × ℕ))
    → window < threshold * pace
    → Paced pace start its
    → trips its (record { threshold = threshold; window = window; count = 0; window_start = 0 })
      ≡ false
trips-Paced threshold window pace start its slow h =
    Paced-quiet pace start its _ (record { few = omega arith; began = omega arith }) slow h

-- An iteration without progress.
abbrev pub stalled : ℕ → Bool × ℕ
stalled now = (false, now)

burst-counted :
    (last : ℕ) (times : List ℕ) (g : SpinGuard)
    → 0 < g.count
    → 0 < g.threshold
    → last ≤ g.window_start + g.window
    → All (λ now. now ≤ last) times
    → g.count ≤ g.threshold
    → g.threshold < g.count + length times
    → trips (map stalled times) g ≡ true
unfolding trips record_iteration
burst-counted last [] g c t l h few many = absurd (omega arith)
burst-counted last (now ∷ times) g c t l (n, h) few many =
    let on : (g.threshold == 0) ≡ false = ground arith in
    let counts : (g.count == 0 || ltb g.window (now - g.window_start)) ≡ false = ground arith in
    let rest = λ (more : suc g.count ≤ g.threshold).
      burst-counted last times (record g { count = suc g.count }) (omega arith) t l h more
        (omega arith) in
    rw (on, counts)
      (if_cases (λ (b : Bool). b ≡ true) (ltb g.threshold (suc g.count)) (λ _. refl)
        (λ f. rest (ground arith)))

-- More iterations without progress than the threshold, all within one window of the first of them,
-- trip an enabled guard that had just seen progress.
pub trips-burst :
    (first last : ℕ) (times : List ℕ) (g : SpinGuard)
    → g.count ≡ 0
    → 0 < g.threshold
    → last ≤ first + g.window
    → All (λ now. now ≤ last) times
    → g.threshold ≤ length times
    → trips (map stalled (first ∷ times)) g ≡ true
unfolding trips record_iteration
trips-burst first last times g fresh t l h many =
    let on : (g.threshold == 0) ≡ false = ground arith in
    let new : (g.count == 0 || ltb g.window (first - g.window_start)) ≡ true = ground arith in
    rw (on, new)
      (burst-counted last times (record g { count = 1; window_start = first }) (omega arith) t l h
        (omega arith) (omega arith))
