-- ===== src/Control/Labels.antt =====
-- The label of a target task (control.go), which is pasted into a pane after `/rename`.
use Prim.Native.Char.{code}
use tmux_tell.Common.{
  ℕ, ◌+◌, ◌≤◌, ◌<◌, String, Bool, true, false, none, ◌≡◌, ◌≢◌, ◌⊎◌, refl, arith, leb, ◌&&◌, ◌||◌,
  List, [], ◌∷◌, All, and-true,
}
use tmux_tell.Control.{
  validate_for_task, for_task_re, label_codes, is_label_code, byte_length, utf8_size,
  max_for_task_len,
}

-- What a shell reads as more than itself: the operators, the quotes, and the characters of expansions
-- and patterns.
abbrev shell_specials : List ℕ
shell_specials =
    b'|' ∷ b'&' ∷ b';' ∷ b'<' ∷ b'>' ∷ b'(' ∷ b')' ∷ b'$' ∷ b'`' ∷ b'\\' ∷ 34 ∷ 39 ∷ b'*' ∷ b'?'
    ∷ b'[' ∷ b']' ∷ b'{' ∷ b'}' ∷ b'~' ∷ b'!' ∷ b'^' ∷ b'=' ∷ b'%' ∷ []

-- No control character, so on one line, ASCII, and none of those. `#` is allowed.
abbrev pub IsInert : ℕ → Type 0
IsInert n = (32 ≤ n) × (n < 123) × All (λ (b : ℕ). n ≢ b) shell_specials

abbrev pub Codes : (ℕ → Type 0) → String → Type 0
Codes P String.[] = Unit
Codes P (String.◌∷◌ c s) = P (code c) × Codes P s

abbrev pub char_count : String → ℕ
char_count String.[] = 0
char_count (String.◌∷◌ c s) = 1 + char_count s

abbrev pub starts_alphanumeric : String → Bool
starts_alphanumeric String.[] = false
starts_alphanumeric (String.◌∷◌ c s) =
    (leb b'0' (code c) && leb (code c) b'9')
    || (leb b'A' (code c) && leb (code c) b'Z')
    || (leb b'a' (code c) && leb (code c) b'z')

-- The codes of a label, by where they lie.
is_label_code-cases :
    (n : ℕ)
    → is_label_code n ≡ true
    → ((n ≡ 32) ⊎ (n ≡ 35))
      ⊎ ((45 ≤ n) × (n ≤ 57))
      ⊎ ((65 ≤ n) × (n ≤ 90))
      ⊎ (n ≡ 95)
      ⊎ ((97 ≤ n) × (n ≤ 122))
is_label_code-cases n h = ground arith

is_label_code-IsInert : (n : ℕ) → is_label_code n ≡ true → IsInert n
is_label_code-IsInert n h =
    let c = is_label_code-cases n h in
    (
      omega arith,
      omega arith,
      (
        (λ e. omega arith),
        (
          (λ e. omega arith),
          (
            (λ e. omega arith),
            (
              (λ e. omega arith),
              (
                (λ e. omega arith),
                (
                  (λ e. omega arith),
                  (
                    (λ e. omega arith),
                    (
                      (λ e. omega arith),
                      (
                        (λ e. omega arith),
                        (
                          (λ e. omega arith),
                          (
                            (λ e. omega arith),
                            (
                              (λ e. omega arith),
                              (
                                (λ e. omega arith),
                                (
                                  (λ e. omega arith),
                                  (
                                    (λ e. omega arith),
                                    (
                                      (λ e. omega arith),
                                      (
                                        (λ e. omega arith),
                                        (
                                          (λ e. omega arith),
                                          (
                                            (λ e. omega arith),
                                            (
                                              (λ e. omega arith),
                                              (
                                                (λ e. omega arith),
                                                ((λ e. omega arith), ((λ e. omega arith), tt)),
                                              ),
                                            ),
                                          ),
                                        ),
                                      ),
                                    ),
                                  ),
                                ),
                              ),
                            ),
                          ),
                        ),
                      ),
                    ),
                  ),
                ),
              ),
            ),
          ),
        ),
      ),
    )

is_label_code-size : (n : ℕ) → is_label_code n ≡ true → utf8_size n ≡ 1
is_label_code-size n h = let c = is_label_code-IsInert n h in ground arith

label_codes-IsInert :
    (s : String) → label_codes s ≡ true → Codes IsInert s × (byte_length s ≡ char_count s)
label_codes-IsInert String.[] h = (tt, refl)
label_codes-IsInert (String.◌∷◌ c s) h =
    let (a, b) = and-true (is_label_code (code c)) (label_codes s) h in
    let (i, l) = label_codes-IsInert s b in
    let z = is_label_code-size (code c) a in ((is_label_code-IsInert (code c) a, i), omega arith)

for_task_re-label_codes :
    (s : String)
    → for_task_re s ≡ true
    → (label_codes s ≡ true) × (starts_alphanumeric s ≡ true) × (1 ≤ char_count s)
for_task_re-label_codes String.[] h = absurd (ground arith)
for_task_re-label_codes (String.◌∷◌ c s) h = (ground arith, ground arith, omega arith)

-- A label that passes the check is one line of 1 to 80 ASCII characters that begins with a letter or a
-- digit, so not with a slash, and holds no operator, quote, expansion or pattern character of a shell; it
-- may hold spaces and, behind its first character, `#`.
pub validate_for_task-IsInert :
    (s : String)
    → validate_for_task s ≡ none
    → Codes IsInert s
      × (starts_alphanumeric s ≡ true)
      × (1 ≤ char_count s)
      × (char_count s ≤ max_for_task_len)
unfolding validate_for_task
validate_for_task-IsInert s h =
    let fit : leb (byte_length s) max_for_task_len ≡ true = ground arith in
    let re : for_task_re s ≡ true = ground arith in
    let (a, b, c) = for_task_re-label_codes s re in
    let (d, e) = label_codes-IsInert s a in (d, b, c, ground arith)
