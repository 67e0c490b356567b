-- ===== src/Store/Schedule/Levels.antt =====
-- internal/store/priority.go: the levels of priority and the names of the strategies. An unknown name
-- is `none`.
use tmux_tell.Common.{
  arith, ℕ, String, Option, none, some, str_eq, ◌==◌, if◌then◌else◌, ◌≡◌, refl, ◌⊎◌, inl, inr,
}
use tmux_tell.Names.{canonical_name}
use tmux_tell.Store.Schedule.{Strategy, max_priority, aged}

abbrev pub priority_low : ℕ
priority_low = 10

abbrev pub priority_normal : ℕ
priority_normal = 20

abbrev pub priority_high : ℕ
priority_high = 30

-- `priorityByName`
abbrev pub priority_by_name : String → Option ℕ
priority_by_name name =
    if str_eq name "low"
    then some priority_low
    else if str_eq name "normal"
    then some priority_normal
    else if str_eq name "high"
    then some priority_high
    else none

-- `strings.ToLower(strings.TrimSpace(name))` is what `canonical_name` computes.
unfoldable pub parse_priority : String → Option ℕ
parse_priority name =
    if str_eq (canonical_name name) ""
    then some priority_normal
    else priority_by_name (canonical_name name)

-- `none` where the source prints the weight as a number.
unfoldable pub priority_name : ℕ → Option String
priority_name weight =
    if weight == priority_low
    then some "low"
    else if weight == priority_normal
    then some "normal"
    else if weight == priority_high
    then some "high"
    else none

unfoldable pub parse_strategy : String → Option Strategy
parse_strategy name =
    let n = canonical_name name in
    if str_eq n ""
    then some max_priority
    else if str_eq n "max"
    then some max_priority
    else if str_eq n "max-priority"
    then some max_priority
    else if str_eq n "aged"
    then some aged
    else if str_eq n "aged-priority"
    then some aged
    else none

parsed-level :
    (name : String) (weight : ℕ)
    → parse_priority name ≡ some weight
    → (weight ≡ 10) ⊎ ((weight ≡ 20) ⊎ (weight ≡ 30))
unfolding parse_priority
parsed-level name weight h = ground arith

-- A level's name that is printed for a weight, and parsed.
abbrev pub Named : ℕ → Type 0
Named weight =
    (level : String) × (priority_name weight ≡ some level) × (parse_priority level ≡ some weight)

level-Named : (weight : ℕ) → (weight ≡ 10) ⊎ ((weight ≡ 20) ⊎ (weight ≡ 30)) → Named weight
unfolding priority_name parse_priority canonical_name
level-Named weight (inl e) = rw e ("low", refl, refl)
level-Named weight (inr (inl e)) = rw e ("normal", refl, refl)
level-Named weight (inr (inr e)) = rw e ("high", refl, refl)

-- A weight that was parsed from any spelling is printed as the name of its level, and that name parses
-- to the same weight.
pub parse_priority-Named :
    (name : String) (weight : ℕ) → parse_priority name ≡ some weight → Named weight
parse_priority-Named name weight h = level-Named weight (parsed-level name weight h)
