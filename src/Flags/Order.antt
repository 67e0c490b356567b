-- ===== src/Flags/Order.antt =====
-- What `reorderFlagsFirst` keeps of its arguments, and what it does to the terminator `--`.
use tmux_tell.Common.{
  ℕ, ◌+◌, String, Bool, false, Option, List, [], ◌∷◌, ◌++◌, ◌≡◌, refl, ap, ◌∙◌, arith, str_eq,
  eq_iff, if_cases, count_rows, count_rows-append, All,
}
use tmux_tell.Flags.{is_flag_token, swallows, Tokens, split_tokens, reorder_flags_first}

abbrev pub occurrences : String → List String → ℕ
occurrences x ts = count_rows (str_eq x) ts

-- How often a token stands on either side.
abbrev both : String → Tokens → ℕ
both x r = occurrences x r.flags + occurrences x r.positionals

-- A token that is neither a flag nor the terminator.
abbrev pub IsPositional : String → Type 0
IsPositional t = (str_eq t "--" ≡ false) × (is_flag_token t ≡ false)

module _ (lookup : String → Option Bool) where
  split_tokens-both :
      (x : String) (ts : List String)
      → str_eq x "--" ≡ false
      → both x (split_tokens lookup ts) ≡ occurrences x ts
  unfolding split_tokens
  split_tokens-both x [] h = omega arith
  split_tokens-both x (t ∷ []) h =
      if_cases (λ (r : Tokens). both x r ≡ occurrences x (t ∷ [])) (str_eq t "--")
        (λ e. let d = ap (str_eq x) ((eq_iff t "--").0 e) ∙ h in ground arith)
        (λ _.
          if_cases (λ (r : Tokens). both x r ≡ occurrences x (t ∷ [])) (is_flag_token t)
            (λ _. ground arith) (λ _. ground arith))
  split_tokens-both x (t ∷ u ∷ us) h =
      let rest = split_tokens-both x (u ∷ us) h in
      let after = split_tokens-both x us h in
      if_cases (λ (r : Tokens). both x r ≡ occurrences x (t ∷ u ∷ us)) (str_eq t "--")
        (λ e. let d = ap (str_eq x) ((eq_iff t "--").0 e) ∙ h in ground arith)
        (λ _.
          if_cases (λ (r : Tokens). both x r ≡ occurrences x (t ∷ u ∷ us)) (is_flag_token t)
            (λ _.
              if_cases (λ (r : Tokens). both x r ≡ occurrences x (t ∷ u ∷ us)) (swallows lookup t)
                (λ _. ground arith) (λ _. ground arith))
            (λ _. ground arith))

  -- No token but the terminator is lost, added or repeated, whatever flags the set defines.
  pub reorder_flags_first-occurrences :
      (x : String) (args : List String)
      → str_eq x "--" ≡ false
      → occurrences x (reorder_flags_first lookup args) ≡ occurrences x args
  unfolding reorder_flags_first
  reorder_flags_first-occurrences x args h =
      let r = split_tokens lookup args in
      count_rows-append (str_eq x) r.flags r.positionals ∙ split_tokens-both x args h

  abbrev Positionals : List String → List String → Tokens → Type 0
  Positionals ps ts r = (r.flags ≡ []) × (r.positionals ≡ ps ++ ts)

  split_tokens-Positionals :
      (ps ts : List String)
      → All IsPositional ps
      → Positionals ps ts (split_tokens lookup (ps ++ "--" ∷ ts))
  unfolding split_tokens
  split_tokens-Positionals [] [] a = (refl, refl)
  split_tokens-Positionals [] (t ∷ ts) a = (refl, refl)
  split_tokens-Positionals (p ∷ []) ts ((n, f), a) =
      let (x, y) = split_tokens-Positionals [] ts tt in
      rw (n, f) (x, ap (λ (l : List String). p ∷ l) y)
  split_tokens-Positionals (p ∷ q ∷ ps) ts ((n, f), a) =
      let (x, y) = split_tokens-Positionals (q ∷ ps) ts a in
      rw (n, f) (x, ap (λ (l : List String). p ∷ l) y)

  -- Where only positional arguments, or none, stand before the first terminator, the result is those
  -- arguments and what stood behind it: the terminator itself is gone.
  pub reorder_flags_first-terminator :
      (ps ts : List String)
      → All IsPositional ps
      → reorder_flags_first lookup (ps ++ "--" ∷ ts) ≡ ps ++ ts
  unfolding reorder_flags_first
  reorder_flags_first-terminator ps ts a =
      let (e, d) = split_tokens-Positionals ps ts a in rw (e, d) refl
