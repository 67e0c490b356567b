-- ===== src/Common/Lists.antt =====
-- Lists measured by native numbers, and predicates over their elements.
use Prim.Native.Nat.{ℕ, zero, suc, ◌+◌}
use mathlib.Core.Path.{◌≡◌, refl}
use mathlib.Core.Bool.{Bool, true, false, ◌||◌}
use mathlib.Core.Logic.{◌⊎◌, inl, inr}
use mathlib.Core.List.{List, [], ◌∷◌, ◌++◌}
use mathlib.Core.Option.{Option, none, some}
use native.Mathlib.Omega.{arith}
use tmux_tell.Common.Tests.{if◌then◌else◌}

module _ {ℓ} {A : Type ℓ} where
  abbrev pub length : List A → ℕ
  length [] = 0
  length (x ∷ xs) = suc (length xs)

  abbrev pub take : ℕ → List A → List A
  take zero xs = []
  take (suc n) [] = []
  take (suc n) (x ∷ xs) = x ∷ take n xs

  pub length-append : (xs ys : List A) → length (xs ++ ys) ≡ length xs + length ys
  length-append [] ys = omega arith
  length-append (x ∷ xs) ys = omega (arith, length-append xs ys)

-- Every element satisfies P.
abbrev pub All {ℓ κ} : {A : Type ℓ} → (A → Type κ) → List A → Type κ
All P [] = Unit
All P (x ∷ xs) = P x × All P xs

-- x is an element of the list, with its place.
abbrev pub In : {A : Type 0} → A → List A → Type 0
In x [] = ⊥
In x (y ∷ ys) = (x ≡ y) ⊎ In x ys

pub All-In : {A : Type 0} (P : A → Type 0) (xs : List A) (x : A) → All P xs → In x xs → P x
All-In P [] x h i = absurd i
All-In P (y ∷ ys) x (p, h) (inl e) = rw e p
All-In P (y ∷ ys) x (p, h) (inr m) = All-In P ys x h m

-- `WHERE`: the rows that pass a test, in their order.
module _ {ℓ} {A : Type ℓ} where
  abbrev pub select_rows : (A → Bool) → List A → List A
  select_rows p [] = []
  select_rows p (x ∷ xs) = if p x then x ∷ select_rows p xs else select_rows p xs

  -- `SELECT COUNT(*)`
  abbrev pub count_rows : (A → Bool) → List A → ℕ
  count_rows p [] = 0
  count_rows p (x ∷ xs) = if p x then suc (count_rows p xs) else count_rows p xs

  -- `UPDATE … SET f WHERE p`
  abbrev pub update_rows : (A → Bool) → (A → A) → List A → List A
  update_rows p f [] = []
  update_rows p f (x ∷ xs) = (if p x then f x else x) ∷ update_rows p f xs

  -- `SELECT … LIMIT 1`
  abbrev pub first_row : (A → Bool) → List A → Option A
  first_row p [] = none
  first_row p (x ∷ xs) = if p x then some x else first_row p xs

  abbrev pub any_row : (A → Bool) → List A → Bool
  any_row p [] = false
  any_row p (x ∷ xs) = p x || any_row p xs

  pub count_rows-append :
      (p : A → Bool) (xs ys : List A) → count_rows p (xs ++ ys) ≡ count_rows p xs + count_rows p ys
  count_rows-append p [] ys = omega arith
  count_rows-append p (x ∷ xs) ys = ground (arith, count_rows-append p xs ys)

  pub count_rows-eq-length :
      (p : A → Bool) (xs : List A) → count_rows p xs ≡ length (select_rows p xs)
  count_rows-eq-length p [] = refl
  count_rows-eq-length p (x ∷ xs) = ground (arith, count_rows-eq-length p xs)

  pub any_row-append :
      (p : A → Bool) (xs ys : List A) → any_row p (xs ++ ys) ≡ (any_row p xs || any_row p ys)
  any_row-append p [] ys = refl
  any_row-append p (x ∷ xs) ys = ground (arith, any_row-append p xs ys)

  -- Rows that an UPDATE takes out of its own selection are gone from it.
  pub count_rows-cleared :
      (p : A → Bool) (f : A → A) (xs : List A)
      → ((x : A) → p x ≡ true → p (f x) ≡ false)
      → count_rows p (update_rows p f xs) ≡ 0
  count_rows-cleared p f [] out = refl
  count_rows-cleared p f (x ∷ xs) out =
      let rest = count_rows-cleared p f xs out in ground (arith, out x)

  -- An UPDATE that moves the rows of p into q adds their number to that of q.
  pub count_rows-moved :
      (p q : A → Bool) (f : A → A) (xs : List A)
      → ((x : A) → p x ≡ true → q x ≡ false)
      → ((x : A) → p x ≡ true → q (f x) ≡ true)
      → count_rows q (update_rows p f xs) ≡ count_rows q xs + count_rows p xs
  count_rows-moved p q f [] out into = refl
  count_rows-moved p q f (x ∷ xs) out into =
      let rest = count_rows-moved p q f xs out into in ground (arith, out x, into x)
