-- ===== src/Common/Text.antt =====
-- Comparison of texts: Go's `==` and `<` on strings.
use Prim.Native.String.{String, compare}
use Prim.Native.String.compare
use mathlib.Core.Path.{◌≡◌}
use mathlib.Core.Logic.{◌⊎◌}
use mathlib.Core.Bool.{Bool, true, false}
use native.Mathlib.Omega.{arith}
use text.Mathlib.Text.{is_lt}
pub use text.Mathlib.Text.{◌==◌ as str_eq}
pub use text.Mathlib.TextEquality.{eq_iff}
pub use text.Mathlib.TextPositions.{eq_refl}
use text.Mathlib.TextPositions.{compare_refl}

abbrev pub str_lt : String → String → Bool
str_lt s t = is_lt (compare s t)

-- Go compares strings by their bytes, which orders UTF-8 as its code points.
pub str_lt_trans : (s t u : String) → str_lt s t ≡ true → str_lt t u ≡ true → str_lt s u ≡ true
str_lt_trans String.[] String.[] u p q = ground (arith, compare.nil-nil)
str_lt_trans s String.[] String.[] p q = ground (arith, compare.nil-nil)
str_lt_trans String.[] (String.◌∷◌ d t) String.[] p q = ground (arith, compare.cons-nil d t)
str_lt_trans String.[] (String.◌∷◌ d t) (String.◌∷◌ e u) p q = ground (arith, compare.nil-cons e u)
str_lt_trans (String.◌∷◌ c s) String.[] (String.◌∷◌ e u) p q = ground (arith, compare.cons-nil c s)
str_lt_trans (String.◌∷◌ c s) (String.◌∷◌ d t) String.[] p q = ground (arith, compare.cons-nil d t)
str_lt_trans (String.◌∷◌ c s) (String.◌∷◌ d t) (String.◌∷◌ e u) p q = ground (
  arith,
  compare.cons-cons c d s t,
  compare.cons-cons d e t u,
  compare.cons-cons c e s u,
  eq_iff s t,
  eq_iff t u,
  str_lt_trans s t u,
)

pub str_lt_irrefl : (s : String) → str_lt s s ≡ false
str_lt_irrefl s = ground (arith, compare_refl s)

-- Two different texts are ordered one way or the other.
pub str_lt_total : (s t : String) → (str_lt s t ≡ true) ⊎ (str_eq s t ≡ true) ⊎ (str_lt t s ≡ true)
str_lt_total String.[] String.[] = ground (arith, compare.nil-nil)
str_lt_total String.[] (String.◌∷◌ d t) = ground (arith, compare.nil-cons d t)
str_lt_total (String.◌∷◌ c s) String.[] = ground (arith, compare.nil-cons c s)
str_lt_total (String.◌∷◌ c s) (String.◌∷◌ d t) =
    ground (arith, compare.cons-cons c d s t, compare.cons-cons d c t s, str_lt_total s t)
