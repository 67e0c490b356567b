-- ===== src/Names.antt =====
-- internal/store/types.go: `CanonicalName`, by which every store operation normalises agent names,
-- and `ReservedRoutingName`. Letters outside ASCII keep their case here.
pub mod Canonical
use Prim.Native.Char.{Char, char, code, IsScalar}
use Prim.Native.Nat.{compare, Ordering}
use tmux_tell.Common.{
  ℕ, ◌+◌, String, Bool, ◌&&◌, ◌||◌, leb, ◌==◌, str_eq, if◌then◌else◌, arith, if_cases, ◌≡◌,
}

abbrev pub is_upper : ℕ → Bool
is_upper n = leb b'A' n && leb n b'Z'

-- `unicode.ToLower` on ASCII.
abbrev pub lower_code : ℕ → ℕ
lower_code n = if is_upper n then n + 32 else n

IsScalar-of_compare : (n : ℕ) → compare n 55296 ≡ Ordering.lt → IsScalar n
IsScalar-of_compare n e = rw e tt

pub lower_code-IsScalar : (n : ℕ) → IsScalar n → IsScalar (lower_code n)
lower_code-IsScalar n h =
    if_cases IsScalar (is_upper n) (λ t. IsScalar-of_compare (n + 32) (ground arith)) (λ _. h)

pub lower_char : Char → Char
lower_char (char n p) = char (lower_code n) (lower_code-IsScalar n p)

-- `unicode.IsSpace`
unfoldable pub is_space : ℕ → Bool
is_space n =
    (leb 9 n && leb n 13)
    || n == 32
    || n == 0x85
    || n == 0xa0
    || n == 0x1680
    || (leb 0x2000 n && leb n 0x200a)
    || n == 0x2028
    || n == 0x2029
    || n == 0x202f
    || n == 0x205f
    || n == 0x3000

unfoldable pub to_lower : String → String
unfolding lower_char
to_lower String.[] = String.[]
to_lower (String.◌∷◌ c s) = String.◌∷◌ (lower_char c) (to_lower s)

unfoldable pub trim_left : String → String
unfolding is_space
trim_left String.[] = String.[]
trim_left (String.◌∷◌ c s) = if is_space (code c) then trim_left s else String.◌∷◌ c s

abbrev pub keep_char : Char → String → String
keep_char c String.[] = if is_space (code c) then String.[] else String.◌∷◌ c String.[]
keep_char c (String.◌∷◌ d s) = String.◌∷◌ c (String.◌∷◌ d s)

unfoldable pub trim_right : String → String
unfolding is_space
trim_right String.[] = String.[]
trim_right (String.◌∷◌ c s) = keep_char c (trim_right s)

unfoldable pub canonical_name : String → String
unfolding to_lower trim_left trim_right
canonical_name name = to_lower (trim_right (trim_left name))

unfoldable pub reserved_routing_name : String → Bool
unfolding canonical_name
reserved_routing_name name = str_eq (canonical_name name) "operator"
