-- ===== src/Mailman/Backoff.antt =====
-- internal/cli/serve.go: `paneNotFoundBackoff` and `rateLimitBackoff`, in nanoseconds.
use tmux_tell.Common.{
  ℕ, zero, suc, ◌+◌, ◌-◌, ◌*◌, ◌%◌, ◌^◌, ◌≤◌, ◌<◌, min, Bool, true, false, ◌||◌, ◌&&◌, ltb, leb,
  ◌==◌, if◌then◌else◌, if_cases, ◌≡◌, refl, arith, ==_iff, and-true, Bool-cases, inl, inr,
}

abbrev pub second : ℕ
second = 1000000000

abbrev pub stuck_backoff_cap : ℕ
stuck_backoff_cap = 60 * second

abbrev pub rate_limit_backoff_cap : ℕ
rate_limit_backoff_cap = 60 * second

-- `d << n` in 64 bits; the sign bit says that the value is negative.
abbrev pub shifted : ℕ → ℕ → ℕ
shifted d n = d * 2 ^ n % 2 ^ 64

abbrev pub is_negative : ℕ → Bool
is_negative d = leb (2 ^ 63) d

abbrev pub clamped : ℕ → ℕ → ℕ
clamped cap d = if is_negative d || ltb cap d then cap else d

-- `consecutive` is a count; below 1 it is read as 1, so the shift is its predecessor.
unfoldable pub pane_not_found_backoff : ℕ → ℕ
pane_not_found_backoff consecutive =
    let shift = consecutive - 1 in
    if leb 63 shift then stuck_backoff_cap else clamped stuck_backoff_cap (shifted second shift)

unfoldable pub rate_limit_backoff : ℕ → ℕ
rate_limit_backoff consecutive =
    let shift = consecutive - 1 in
    if leb 63 shift
    then rate_limit_backoff_cap
    else clamped rate_limit_backoff_cap (shifted second shift)

-- A test that holds of every number below a bound.
abbrev holds_below : (ℕ → Bool) → ℕ → Bool
holds_below p zero = true
holds_below p (suc n) = p n && holds_below p n

holds_below-at : (p : ℕ → Bool) (n : ℕ) → holds_below p n ≡ true → (k : ℕ) → k < n → p k ≡ true
holds_below-at p zero h k l = absurd (omega arith)
holds_below-at p (suc n) h k l = elim (Bool-cases (k == n)) [
  | inl t ↦ rw ((==_iff k n).0 t) ((and-true (p n) (holds_below p n) h).0)
  | inr f ↦
      holds_below-at p n ((and-true (p n) (holds_below p n) h).1) k (ground (arith, ==_iff k n))
]

abbrev doubles : ℕ → Bool
doubles k = clamped stuck_backoff_cap (shifted second k) == min (second * 2 ^ k) stuck_backoff_cap

doubles_all : holds_below doubles 55 ≡ true
doubles_all = refl

abbrev lapses : ℕ → Bool
lapses k = clamped stuck_backoff_cap (shifted second (k + 55)) == 0

lapses_all : holds_below lapses 8 ≡ true
lapses_all = refl

clamped-le : (cap d : ℕ) → clamped cap d ≤ cap
clamped-le cap d =
    if_cases (λ x. x ≤ cap) (is_negative d || ltb cap d) (λ _. omega arith) (λ f. ground arith)

module _ (k : ℕ) where
  -- For the first 55 failures in a row the delay is one second, doubled with each further failure, and
  -- at most 60 seconds.
  pub pane_not_found_backoff-doubles :
      k < 55 → pane_not_found_backoff (suc k) ≡ min (second * 2 ^ k) stuck_backoff_cap
  unfolding pane_not_found_backoff
  pane_not_found_backoff-doubles l =
      let t : leb 63 (suc k - 1) ≡ false = ground arith in
      let e : suc k - 1 ≡ k = omega arith in
      rw t (rw e ((==_iff _ _).0 (holds_below-at doubles 55 doubles_all k l)))

  -- However many failures there were, the delay is at most 60 seconds.
  pub pane_not_found_backoff-bounded : pane_not_found_backoff k ≤ stuck_backoff_cap
  unfolding pane_not_found_backoff
  pane_not_found_backoff-bounded =
      if_cases (λ d. d ≤ stuck_backoff_cap) (leb 63 (k - 1)) (λ _. omega arith)
        (λ _. clamped-le stuck_backoff_cap (shifted second (k - 1)))

  -- For the first 55 rate-limited attempts in a row without a hint the delay is one second, doubled with
  -- each further attempt, and at most 60 seconds.
  pub rate_limit_backoff-doubles :
      k < 55 → rate_limit_backoff (suc k) ≡ min (second * 2 ^ k) rate_limit_backoff_cap
  unfolding rate_limit_backoff
  rate_limit_backoff-doubles l =
      let t : leb 63 (suc k - 1) ≡ false = ground arith in
      let e : suc k - 1 ≡ k = omega arith in
      rw t (rw e ((==_iff _ _).0 (holds_below-at doubles 55 doubles_all k l)))

-- From the 56th to the 63rd failure in a row both delays are zero.
pub backoff-lapse :
    (k : ℕ) → 56 ≤ k → k ≤ 63 → (pane_not_found_backoff k ≡ 0) × (rate_limit_backoff k ≡ 0)
unfolding pane_not_found_backoff rate_limit_backoff
backoff-lapse k l u =
    let t : leb 63 (k - 1) ≡ false = ground arith in
    let e : k - 1 ≡ (k - 56) + 55 = omega arith in
    let z = (==_iff _ _).0 (holds_below-at lapses 8 lapses_all (k - 56) (omega arith)) in
    (rw t (rw e z), rw t (rw e z))
