-- ===== src/Store/Aliases.antt =====
-- internal/store/agents.go: `SetAliases`, `AddAlias` and `checkAliasCollisions`. The JSON of the column
-- is a list here.
pub mod Shadows
use tmux_tell.Common.{
  ℕ, String, Bool, true, false, Option, none, some, List, [], ◌∷◌, ◌++◌, ◌&&◌, ◌||◌, not, ◌==◌,
  str_eq, if◌then◌else◌, any_row, first_row,
}
use tmux_tell.Names.{canonical_name, reserved_routing_name}
use tmux_tell.Store.Tables.{
  Agent, Store, Error, not_found, reserved_name, alias_collision, Result, ok, err,
}
use tmux_tell.Store.Insert.{named}
use tmux_tell.Store.Agents.{update_agent}

-- Another agent has the candidate as its name or as an alias.
abbrev pub same_alias : String → String → Bool
same_alias candidate other = str_eq (canonical_name other) (canonical_name candidate)

abbrev pub collides : String → String → Agent → Bool
collides name candidate a =
    not (str_eq a.name name)
    && (str_eq a.name (canonical_name candidate) || any_row (same_alias candidate) a.aliases)

unfoldable pub check_alias_collisions : String → List String → Store → Option Error
check_alias_collisions agent [] s = none
check_alias_collisions agent (alias ∷ aliases) s =
    if any_row reserved_routing_name (alias ∷ aliases)
    then some reserved_name
    else if any_row (λ c. any_row (collides (canonical_name agent) c) s.agents) (alias ∷ aliases)
    then some alias_collision
    else none

unfoldable pub set_aliases : String → List String → ℕ → Store → Result (Unit {0}) × Store
unfolding check_alias_collisions
set_aliases agent aliases now s = elim (check_alias_collisions (canonical_name agent) aliases s) [
  | some e ↦ (err e, s)
  | none ↦
      update_agent (canonical_name agent) (λ a. record a { aliases = aliases; updated_at = now }) s
]

abbrev pub is_alias : String → String → Bool
is_alias alias existing = str_eq existing alias

unfoldable pub add_alias : String → String → ℕ → Store → Result (Unit {0}) × Store
unfolding set_aliases
add_alias agent alias now s = elim (first_row (named (canonical_name agent)) s.agents) [
  | none ↦ (err not_found, s)
  | some a ↦
      if any_row (is_alias alias) a.aliases
      then (ok tt, s)
      else set_aliases agent (a.aliases ++ alias ∷ []) now s
]
