-- ===== src/Fanout.antt =====
-- internal/cli/fanoutthrottle.go: how far apart the inserts of one message to many recipients are.
-- Times are in milliseconds.
pub mod Bounds
use tmux_tell.Common.{
  ℕ, zero, suc, ◌+◌, ◌-◌, ◌*◌, ◌≤◌, min, String, Bool, true, false, Option, none, some, List, [],
  ◌∷◌, str_eq, ltb, leb, if◌then◌else◌,
}

-- `poolThrottle`
pub record PoolThrottle : Type 0 where
  pub threshold : ℕ
  pub delay : ℕ

abbrev pub unknown_pool : String
unknown_pool = "unknown"

abbrev pub unknown_throttle : PoolThrottle
unknown_throttle = record { threshold = 1; delay = 1500 }

abbrev pub max_fanout_stagger : ℕ
max_fanout_stagger = 10000

-- `noThrottlePools`
abbrev pub is_no_throttle_pool : String → Bool
is_no_throttle_pool pool = str_eq pool "ollama"

-- `poolThrottles`, keyed by the names of the providers.
abbrev pub pool_throttles : String → Option PoolThrottle
pool_throttles pool =
    if str_eq pool "anthropic"
    then some (record { threshold = 5; delay = 400 })
    else if str_eq pool "openai"
    then some (record { threshold = 2; delay = 1500 })
    else none

unfoldable pub norm_pool : String → String
norm_pool provider = if str_eq provider "" then unknown_pool else provider

abbrev or_unknown : Option PoolThrottle → PoolThrottle
or_unknown none = unknown_throttle
or_unknown (some t) = t

-- `none` for a pool that is not throttled.
unfoldable pub throttle_for_pool : String → Option PoolThrottle
throttle_for_pool pool =
    if is_no_throttle_pool pool then none else some (or_unknown (pool_throttles pool))

-- The offset of a recipient that has k others of its pool before it.
abbrev pub clamp : ℕ → ℕ
clamp off = if ltb max_fanout_stagger off then max_fanout_stagger else off

abbrev pub offset_of : Option PoolThrottle → ℕ → ℕ
offset_of none k = 0
offset_of (some t) k = if ltb k t.threshold then 0 else clamp ((suc k - t.threshold) * t.delay)

-- `seen[pool]++`
abbrev pub bump : String → (String → ℕ) → String → ℕ
bump pool seen p = if str_eq p pool then suc (seen p) else seen p

unfoldable pub stagger_from : (String → ℕ) → List String → List ℕ
unfolding norm_pool throttle_for_pool
stagger_from seen [] = []
stagger_from seen (p ∷ pools) =
    let pool = norm_pool p in
    offset_of (throttle_for_pool pool) (seen pool) ∷ stagger_from (bump pool seen) pools

unfoldable pub fanout_stagger_offsets : List String → List ℕ
unfolding stagger_from
fanout_stagger_offsets pools = stagger_from (λ _. 0) pools
