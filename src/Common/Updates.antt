-- ===== src/Common/Updates.antt =====
-- What an UPDATE does to the counts and tests of other selections.
use Prim.Native.Nat.{◌≤◌, ◌<◌}
use mathlib.Core.Path.{◌≡◌, sym, refl, ◌∙◌, ap}
use mathlib.Core.Bool.{Bool, true, false}
use mathlib.Core.Logic.{inl, inr}
use mathlib.Core.List.{List, [], ◌∷◌}
use mathlib.Core.Option.{some}
use native.Mathlib.Omega.{arith}
use tmux_tell.Common.Tests.{Bool-cases, if_cases}
use tmux_tell.Common.Lists.{In, first_row, select_rows, count_rows, update_rows, any_row}

module _ {A : Type 0} where
  pub count_rows-pos :
      (p : A → Bool) (xs : List A) (x : A) → In x xs → p x ≡ true → 0 < count_rows p xs
  count_rows-pos p [] x i h = absurd i
  count_rows-pos p (y ∷ ys) x (inl e) h = let q = ap p e in ground arith
  count_rows-pos p (y ∷ ys) x (inr i) h = let r = count_rows-pos p ys x i h in ground arith

  -- Rows that the UPDATE leaves outside q do not add to q.
  pub count_rows-le :
      (p q : A → Bool) (f : A → A) (xs : List A)
      → ((x : A) → p x ≡ true → q (f x) ≡ false)
      → count_rows q (update_rows p f xs) ≤ count_rows q xs
  count_rows-le p q f [] out = omega arith
  count_rows-le p q f (x ∷ xs) out = let r = count_rows-le p q f xs out in ground (arith, out x)

  -- If it takes a row out of q, the count falls.
  pub count_rows-lt :
      (p q : A → Bool) (f : A → A) (xs : List A) (x : A)
      → ((y : A) → p y ≡ true → q (f y) ≡ false)
      → In x xs
      → p x ≡ true
      → q x ≡ true
      → count_rows q (update_rows p f xs) < count_rows q xs
  count_rows-lt p q f [] x out i hp hq = absurd i
  count_rows-lt p q f (y ∷ ys) x out (inl e) hp hq =
      let r = count_rows-le p q f ys out in
      let a = ap p e in let b = ap q e in ground (arith, out y)
  count_rows-lt p q f (y ∷ ys) x out (inr i) hp hq =
      let r = count_rows-lt p q f ys x out i hp hq in ground (arith, out y)

  -- An UPDATE that neither takes from q nor adds to it.
  pub count_rows-kept :
      (p q : A → Bool) (f : A → A) (xs : List A)
      → ((x : A) → p x ≡ true → q x ≡ false)
      → ((x : A) → p x ≡ true → q (f x) ≡ false)
      → count_rows q (update_rows p f xs) ≡ count_rows q xs
  count_rows-kept p q f [] was out = refl
  count_rows-kept p q f (x ∷ xs) was out =
      let r = count_rows-kept p q f xs was out in ground (arith, was x, out x)

  -- A row that the UPDATE brings into r.
  pub any_row-brought :
      (p r : A → Bool) (f : A → A) (xs : List A) (x : A)
      → In x xs
      → p x ≡ true
      → r (f x) ≡ true
      → any_row r (update_rows p f xs) ≡ true
  any_row-brought p r f [] x i hp hr = absurd i
  any_row-brought p r f (y ∷ ys) x (inl e) hp hr =
      let a = ap p e in let b = ap (λ z. r (f z)) e in ground arith
  any_row-brought p r f (y ∷ ys) x (inr i) hp hr =
      let k = any_row-brought p r f ys x i hp hr in ground arith

  -- Rows of r that the UPDATE does not touch stay in it.
  pub any_row-kept :
      (p r : A → Bool) (f : A → A) (xs : List A)
      → ((x : A) → p x ≡ true → r x ≡ false)
      → any_row r xs ≡ true
      → any_row r (update_rows p f xs) ≡ true
  any_row-kept p r f [] was h = h
  any_row-kept p r f (x ∷ xs) was h = ground (arith, was x, any_row-kept p r f xs was)

  pub first_row-In :
      (p : A → Bool) (xs : List A) (x : A) → first_row p xs ≡ some x → In x xs × (p x ≡ true)
  first_row-In p [] x h = absurd (ground arith)
  first_row-In p (y ∷ ys) x h = elim (Bool-cases (p y)) [
    | inl t ↦ let q : y ≡ x = ground arith in (inl (sym q), sym (ap p q) ∙ t)
    | inr f ↦ let r = first_row-In p ys x (ground arith) in (inr r.0, r.1)
  ]

  pub select_rows-In : (p : A → Bool) (xs : List A) (x : A) → In x (select_rows p xs) → In x xs
  select_rows-In p [] x i = i
  select_rows-In p (y ∷ ys) x i = elim (Bool-cases (p y)) [
    | inl t ↦ elim (rw t at i) [ inl e ↦ inl e | inr j ↦ inr (select_rows-In p ys x j) ]
    | inr f ↦ inr (select_rows-In p ys x (rw f at i))
  ]

  pub In-select_rows :
      (p : A → Bool) (xs : List A) (x : A) → In x xs → p x ≡ true → In x (select_rows p xs)
  In-select_rows p [] x i h = absurd i
  In-select_rows p (y ∷ ys) x (inl e) h =
      if_cases (λ (l : List A). In x l) (p y) (λ _. inl e) (λ f. absurd (ground (arith, ap p e)))
  In-select_rows p (y ∷ ys) x (inr i) h =
      let rest = In-select_rows p ys x i h in
      if_cases (λ (l : List A). In x l) (p y) (λ _. inr rest) (λ _. rest)
