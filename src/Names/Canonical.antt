-- ===== src/Names/Canonical.antt =====
-- Canonical names are fixed points.
use Prim.Native.Char.{Char, char, code}
use Prim.Native.String.{String}
use tmux_tell.Common.{ℕ, ◌≡◌, refl, false, ap, ◌∙◌, arith, if_cases, Bool-cases, inl, inr}
use text.Mathlib.TextEquality.{Char-path}
use tmux_tell.Names.{
  lower_code, lower_char, is_space, to_lower, trim_left, trim_right, keep_char, canonical_name,
}

space-lower : (n : ℕ) → is_space (lower_code n) ≡ is_space n
unfolding is_space
space-lower n = ground arith

lower_char_idem : (c : Char) → lower_char (lower_char c) ≡ lower_char c
unfolding lower_char
lower_char_idem (char n p) = Char-path _ _ (ground arith)

to_lower_idem : (s : String) → to_lower (to_lower s) ≡ to_lower s
unfolding to_lower
to_lower_idem String.[] = refl
to_lower_idem (String.◌∷◌ c s) = ground (arith, lower_char_idem c, to_lower_idem s)

space-lower_char : (c : Char) → is_space (code (lower_char c)) ≡ is_space (code c)
unfolding lower_char
space-lower_char (char n p) = space-lower n

trim_left-to_lower : (s : String) → trim_left (to_lower s) ≡ to_lower (trim_left s)
unfolding trim_left to_lower
trim_left-to_lower String.[] = refl
trim_left-to_lower (String.◌∷◌ c s) = elim (Bool-cases (is_space (code c))) [
  | inl e ↦ ground (arith, space-lower_char c, trim_left-to_lower s)
  | inr e ↦ ground (arith, space-lower_char c)
]

keep_char-to_lower :
    (c : Char) (s : String) → keep_char (lower_char c) (to_lower s) ≡ to_lower (keep_char c s)
unfolding to_lower
keep_char-to_lower c String.[] = elim (Bool-cases (is_space (code c))) [
  | inl e ↦ rw (space-lower_char c, e)
  | inr e ↦ rw (space-lower_char c, e)
]
keep_char-to_lower c (String.◌∷◌ d s) = refl

trim_right-to_lower : (s : String) → trim_right (to_lower s) ≡ to_lower (trim_right s)
unfolding trim_right to_lower
trim_right-to_lower String.[] = refl
trim_right-to_lower (String.◌∷◌ c s) =
    ap (keep_char (lower_char c)) (trim_right-to_lower s) ∙ keep_char-to_lower c (trim_right s)

trim_right-keep_char :
    (c : Char) (s : String) → trim_right s ≡ s → trim_right (keep_char c s) ≡ keep_char c s
unfolding trim_right
trim_right-keep_char c String.[] h =
    if_cases (λ t. trim_right t ≡ t) (is_space (code c)) (λ _. refl) (λ e. rw e)
trim_right-keep_char c (String.◌∷◌ d s) h = ap (keep_char c) h

trim_right_idem : (s : String) → trim_right (trim_right s) ≡ trim_right s
unfolding trim_right
trim_right_idem String.[] = refl
trim_right_idem (String.◌∷◌ c s) = trim_right-keep_char c (trim_right s) (trim_right_idem s)

-- A text that does not begin with a space still does not after a trim at its end.
trim_left-keep_char :
    (c : Char) (s : String) → is_space (code c) ≡ false → trim_left (keep_char c s) ≡ keep_char c s
unfolding trim_left
trim_left-keep_char c String.[] e = ground arith
trim_left-keep_char c (String.◌∷◌ d s) e = ground arith

trim_left_right : (s : String) → trim_left (trim_right (trim_left s)) ≡ trim_right (trim_left s)
unfolding trim_left trim_right
trim_left_right String.[] = refl
trim_left_right (String.◌∷◌ c s) = elim (Bool-cases (is_space (code c))) [
  | inl e ↦ ground (arith, trim_left_right s)
  | inr e ↦ ground (arith, trim_left-keep_char c (trim_right s) e)
]

-- Canonicalising twice is canonicalising once, so a stored name, which was canonicalised when it was
-- written, is found by every spelling that it was written with.
pub canonical_name_idem :
    (name : String) → canonical_name (canonical_name name) ≡ canonical_name name
unfolding canonical_name
canonical_name_idem name =
    ap (λ s. to_lower (trim_right s)) (trim_left-to_lower (trim_right (trim_left name)))
    ∙ ap to_lower (trim_right-to_lower (trim_left (trim_right (trim_left name))))
    ∙ to_lower_idem (trim_right (trim_left (trim_right (trim_left name))))
    ∙ ap (λ s. to_lower (trim_right s)) (trim_left_right name)
    ∙ ap to_lower (trim_right_idem (trim_left name))
