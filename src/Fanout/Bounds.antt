-- ===== src/Fanout/Bounds.antt =====
-- The stagger keeps a pool's burst to its threshold, and ends in time.
use native.Mathlib.Nat.{mul-pos}
use tmux_tell.Common.{
  ℕ, suc, ◌-◌, ◌*◌, ◌≤◌, ◌<◌, String, true, false, Option, none, some, List, [], ◌∷◌, str_eq,
  eq_iff, ltb, ◌==◌, ◌&&◌, if◌then◌else◌, if_cases, ◌≡◌, refl, ◌∙◌, ap, sym, arith, All, Bool-cases,
  inl, inr,
}
use tmux_tell.Fanout.{
  PoolThrottle, max_fanout_stagger, norm_pool, throttle_for_pool, clamp, offset_of, bump,
  stagger_from, fanout_stagger_offsets,
}

-- The recipients of a pool that are released at once.
abbrev pub released_at_once : String → List String → List ℕ → ℕ
released_at_once pool [] offsets = 0
released_at_once pool (p ∷ pools) [] = 0
released_at_once pool (p ∷ pools) (off ∷ offsets) =
    if str_eq (norm_pool p) pool && (off == 0)
    then suc (released_at_once pool pools offsets)
    else released_at_once pool pools offsets

clamp-le : (off : ℕ) → clamp off ≤ max_fanout_stagger
clamp-le off =
    if_cases (λ x. x ≤ max_fanout_stagger) (ltb max_fanout_stagger off) (λ _. omega arith)
      (λ f. ground arith)

offset_of-le : (t : Option PoolThrottle) (k : ℕ) → offset_of t k ≤ max_fanout_stagger
offset_of-le none k = omega arith
offset_of-le (some t) k =
    if_cases (λ x. x ≤ max_fanout_stagger) (ltb k t.threshold) (λ _. omega arith)
      (λ _. clamp-le ((suc k - t.threshold) * t.delay))

from-bounded :
    (seen : String → ℕ) (pools : List String)
    → All (λ off. off ≤ max_fanout_stagger) (stagger_from seen pools)
unfolding stagger_from
from-bounded seen [] = tt
from-bounded seen (p ∷ pools) = (
  offset_of-le (throttle_for_pool (norm_pool p)) (seen (norm_pool p)),
  from-bounded (bump (norm_pool p) seen) pools,
)

-- No recipient waits longer than ten seconds.
pub fanout_stagger_offsets-bounded :
    (pools : List String) → All (λ off. off ≤ max_fanout_stagger) (fanout_stagger_offsets pools)
unfolding fanout_stagger_offsets
fanout_stagger_offsets-bounded pools = from-bounded (λ _. 0) pools

throttle_for_pool-positive :
    (pool : String) (t : PoolThrottle) → throttle_for_pool pool ≡ some t → 0 < t.delay
unfolding throttle_for_pool
throttle_for_pool-positive pool t e = ground arith

-- A recipient past the burst waits.
late-positive :
    (t : PoolThrottle) (k : ℕ) → 0 < t.delay → t.threshold ≤ k → (offset_of (some t) k == 0) ≡ false
late-positive t k d l =
    let m = mul-pos {m = suc k - t.threshold} {n = t.delay} (omega arith) d in
    let past : ltb k t.threshold ≡ false = ground arith in
    rw past (
      if_cases (λ (x : ℕ). (x == 0) ≡ false)
        (ltb max_fanout_stagger ((suc k - t.threshold) * t.delay)) (λ _. refl) (λ _. ground arith))

from-burst :
    (pool : String) (t : PoolThrottle) (seen : String → ℕ) (pools : List String)
    → throttle_for_pool pool ≡ some t
    → released_at_once pool pools (stagger_from seen pools) ≤ t.threshold - seen pool
unfolding stagger_from
from-burst pool t seen [] e = omega arith
from-burst pool t seen (p ∷ pools) e =
    let rest = from-burst pool t (bump (norm_pool p) seen) pools e in
    elim (Bool-cases (str_eq (norm_pool p) pool)) [
      | inl same ↦ in_pool same rest
      | inr other ↦ rw other (elsewhere other rest)
    ]
  where
    elsewhere :
        str_eq (norm_pool p) pool ≡ false
        → released_at_once pool pools (stagger_from (bump (norm_pool p) seen) pools)
          ≤ t.threshold - bump (norm_pool p) seen pool
        → released_at_once pool pools (stagger_from (bump (norm_pool p) seen) pools)
          ≤ t.threshold - seen pool
    elsewhere other rest = ground (arith, eq_iff (norm_pool p) pool, eq_iff pool (norm_pool p))

    in_pool :
        str_eq (norm_pool p) pool ≡ true
        → released_at_once pool pools (stagger_from (bump (norm_pool p) seen) pools)
          ≤ t.threshold - bump (norm_pool p) seen pool
        → released_at_once pool (p ∷ pools) (stagger_from seen (p ∷ pools))
          ≤ t.threshold - seen pool
    in_pool same rest =
        let q = (eq_iff (norm_pool p) pool).0 same in
        let o : throttle_for_pool (norm_pool p) ≡ some t = ap throttle_for_pool q ∙ e in
        let k = ap seen q in
        let counted : str_eq pool (norm_pool p) ≡ true = (eq_iff pool (norm_pool p)).1 (sym q) in
        let waits = late-positive t (seen (norm_pool p)) (throttle_for_pool-positive pool t e) in
        rw (o, same) (ground (arith, waits))

-- Of the recipients of a throttled pool, the empty name counted as the unknown pool, no more than the
-- pool's threshold are released at once.
pub fanout_stagger_offsets-burst :
    (pool : String) (t : PoolThrottle) (pools : List String)
    → throttle_for_pool pool ≡ some t
    → released_at_once pool pools (fanout_stagger_offsets pools) ≤ t.threshold
unfolding fanout_stagger_offsets
fanout_stagger_offsets-burst pool t pools e = omega (arith, from-burst pool t (λ _. 0) pools e)
