-- ===== src/Flags.antt =====
-- internal/cli/flagorder.go: `reorderFlagsFirst`, which moves flags before the positional arguments. The
-- flag set is a parameter: whether it has a flag of a name, and whether that is a Boolean one.
pub mod Order
use Prim.Native.Char.{code}
use tmux_tell.Common.{
  ℕ, String, Bool, true, false, not, Option, none, some, List, [], ◌∷◌, ◌++◌, ◌&&◌, ◌||◌, ◌==◌,
  str_eq, if◌then◌else◌,
}

-- `isFlagToken`
abbrev pub is_flag_token : String → Bool
is_flag_token String.[] = false
is_flag_token (String.◌∷◌ c String.[]) = false
is_flag_token (String.◌∷◌ c (String.◌∷◌ d s)) = code c == b'-'

abbrev pub has_equals : String → Bool
has_equals String.[] = false
has_equals (String.◌∷◌ c s) = code c == b'=' || has_equals s

abbrev pub trim_dashes : String → String
trim_dashes String.[] = String.[]
trim_dashes (String.◌∷◌ c s) = if code c == b'-' then trim_dashes s else String.◌∷◌ c s

-- The flag is defined, and is not Boolean.
abbrev pub takes_value : Option Bool → Bool
takes_value none = false
takes_value (some is_bool_flag) = not is_bool_flag

-- Flags and positional arguments.
pub record Tokens : Type 0 where
  pub flags : List String
  pub positionals : List String

abbrev pub no_tokens : Tokens
no_tokens = record { flags = []; positionals = [] }

abbrev pub add_flag : String → Tokens → Tokens
add_flag t r = record r { flags = t ∷ r.flags }

abbrev pub add_positional : String → Tokens → Tokens
add_positional t r = record r { positionals = t ∷ r.positionals }

module _ (lookup : String → Option Bool) where
  -- The token swallows the next one.
  abbrev pub swallows : String → Bool
  swallows t = not (has_equals t) && takes_value (lookup (trim_dashes t))

  unfoldable pub split_tokens : List String → Tokens
  split_tokens [] = no_tokens
  split_tokens (t ∷ []) =
      if str_eq t "--"
      then no_tokens
      else if is_flag_token t
      then add_flag t no_tokens
      else add_positional t no_tokens
  split_tokens (t ∷ u ∷ us) =
      let rest = split_tokens (u ∷ us) in
      let rest_after_value = split_tokens us in
      if str_eq t "--"
      then record { flags = []; positionals = u ∷ us }
      else if is_flag_token t
      then if swallows t then add_flag t (add_flag u rest_after_value) else add_flag t rest
      else add_positional t rest

  unfoldable pub reorder_flags_first : List String → List String
  unfolding split_tokens
  reorder_flags_first args = let r = split_tokens args in r.flags ++ r.positionals
