-- ===== src/Store/Schedule.antt =====
-- internal/store/priority.go: priorities, strategies, and which queued message goes next.
mod Order
mod Channels
pub mod Choice
pub mod Levels
pub mod Urgency
use tmux_tell.Common.{
  ℕ, zero, suc, ◌+◌, ◌*◌, String, Bool, Option, none, some, List, [], ◌∷◌, ◌||◌, ◌&&◌, ltb, ◌==◌,
  str_eq, str_lt, if◌then◌else◌, length, ◌≡◌, refl,
}

pub data Strategy : Type 0 where
  max_priority aged : Strategy

-- The scheduling fields of a queued row. A priority is one of the levels below, so it is a number
-- here; Go's `int` is signed, and `ParsePriority` produces no negative weight.
pub record Candidate : Type 0 where
  pub id : ℕ
  pub from_agent : String
  pub priority : ℕ

-- The order of `sort.SliceStable`: by sender, then by id.
abbrev pub before : Candidate → Candidate → Bool
before a b =
    if str_eq a.from_agent b.from_agent then ltb a.id b.id else str_lt a.from_agent b.from_agent

-- A stable sort: an element goes in front of those that are not before it.
unfoldable pub insert : Candidate → List Candidate → List Candidate
insert c [] = c ∷ []
insert c (x ∷ xs) = if before x c then x ∷ insert c xs else c ∷ x ∷ xs

unfoldable pub sort : List Candidate → List Candidate
unfolding insert
sort [] = []
sort (c ∷ cs) = insert c (sort cs)

abbrev pub row_weight : Strategy → ℕ → Candidate → ℕ
row_weight max_priority pos c = c.priority
row_weight aged pos c = c.priority * (1 + pos)

-- The inner loop: the weight of the channel of `from` at the head of the list, and what follows it.
unfoldable pub channel_weight : Strategy → String → ℕ → ℕ → List Candidate → ℕ × List Candidate
channel_weight strategy from pos weight [] = (weight, [])
channel_weight strategy from pos weight (c ∷ cs) =
    let w = row_weight strategy pos c in
    let rest = channel_weight strategy from (pos + 1) (if ltb weight w then w else weight) cs in
    if str_eq c.from_agent from then rest else (weight, c ∷ cs)

-- `found`, `bestWeight` and `bestHead`: `none` until a channel was seen.
abbrev pub better : Option (ℕ × ℕ) → ℕ → ℕ → Option (ℕ × ℕ)
better none weight head = some (weight, head)
better (some (best_weight, best_head)) weight head =
    if ltb best_weight weight || (weight == best_weight && ltb head best_head)
    then some (weight, head)
    else some (best_weight, best_head)

-- The outer loop. Each round consumes at least one row, so the number of rows is fuel enough.
unfoldable pub scan_channels : Strategy → ℕ → Option (ℕ × ℕ) → List Candidate → Option (ℕ × ℕ)
unfolding channel_weight
scan_channels strategy zero best cs = best
scan_channels strategy (suc n) best [] = best
scan_channels strategy (suc n) best (c ∷ cs) =
    let (weight, rest) = channel_weight strategy c.from_agent 0 0 (c ∷ cs) in
    scan_channels strategy n (better best weight c.id) rest

abbrev head_of : Option (ℕ × ℕ) → Option ℕ
head_of none = none
head_of (some (weight, head)) = some head

-- The chosen id; `none` for `false`.
unfoldable pub select_scheduled : List Candidate → Strategy → Option ℕ
unfolding sort scan_channels
select_scheduled candidates strategy =
    head_of (scan_channels strategy (length candidates) none (sort candidates))
