-- ===== src/Store/Queries/Pages.antt =====
-- `TailRows` read page by page, each from the last id of the one before.
use tmux_tell.Common.{
  ℕ, zero, suc, ◌≤◌, ◌<◌, Bool, false, List, [], ◌∷◌, ◌++◌, ◌≡◌, refl, sym, ap, subst, arith,
  if_cases, if◌then◌else◌, ◌&&◌, ltb, ◌==◌, take, select_rows, All, map,
}
use tmux_tell.Store.Tables.{Message, Store}
use tmux_tell.Store.Integrity.{Key, key, Ascends, IsSound}
use tmux_tell.Store.Queries.{TailFilter, tail_passes, tailed, tail_rows}

-- The id of the last row, or the one that the page started from.
abbrev pub last_id : ℕ → List Message → ℕ
last_id n [] = n
last_id n (m ∷ ms) = last_id m.id ms

-- A row with a greater id that passes the rest of the filter.
abbrev is_after : (Message → Bool) → ℕ → Message → Bool
is_after g n m = ltb n m.id && g m

-- Where all ids are above x, the start may move up to x.
select-moved :
    (g : Message → Bool) (n x : ℕ) (ms : List Message)
    → n ≤ x
    → All (λ (j : Key). x < j.id) (map key ms)
    → select_rows (is_after g n) ms ≡ select_rows (is_after g x) ms
select-moved g n x [] l a = refl
select-moved g n x (m ∷ ms) l (h, a) = ground (arith, select-moved g n x ms l a)

last_id-le :
    (g : Message → Bool) (n k : ℕ) (ms : List Message)
    → Ascends (map key ms)
    → n ≤ last_id n (take k (select_rows (is_after g n) ms))
last_id-le g n zero ms a = omega arith
last_id-le g n (suc k) [] a = omega arith
last_id-le g n (suc k) (m ∷ ms) (h, a) =
    if_cases (λ (l : List Message). n ≤ last_id n (take (suc k) l)) (is_after g n m)
      (λ t.
        let up : n < m.id = ground arith in
        let r = last_id-le g m.id k ms a in
        rw (select-moved g n m.id ms (omega arith) h) (omega arith))
      (λ _. last_id-le g n (suc k) ms a)

rest_after :
    (g : Message → Bool) (n k : ℕ) (ms : List Message)
    → Ascends (map key ms)
    → select_rows (is_after g n) ms
      ≡ take k (select_rows (is_after g n) ms)
        ++ select_rows (is_after g (last_id n (take k (select_rows (is_after g n) ms)))) ms
rest_after g n zero ms a = refl
rest_after g n (suc k) [] a = refl
rest_after g n (suc k) (m ∷ ms) (h, a) =
    if_cases
      (λ (l : List Message).
        l ≡ take (suc k) l ++ select_rows (is_after g (last_id n (take (suc k) l))) (m ∷ ms))
      (is_after g n m)
      (λ t.
        let up : n < m.id = ground arith in
        let le = last_id-le g m.id k ms a in
        let skip : is_after g (last_id m.id (take k (select_rows (is_after g m.id) ms))) m ≡ false =
          ground arith in
        subst
          (λ (l : List Message).
            m ∷ l ≡ m ∷ (take k l ++ select_rows (is_after g (last_id m.id (take k l))) (m ∷ ms)))
          (sym (select-moved g n m.id ms (omega arith) h))
          (rw skip (ap (λ (l : List Message). m ∷ l) (rest_after g m.id k ms a))))
      (λ f.
        let le = last_id-le g n (suc k) ms a in
        let skip : is_after g (last_id n (take (suc k) (select_rows (is_after g n) ms))) m ≡ false =
          ground arith in
        rw skip (rest_after g n (suc k) ms a))

-- The rows above an id are a page of `TailRows` and, after it, the rows above the last id of that page:
-- following the tail with any limit repeats no row and misses none.
pub tail_rows-pages :
    (after_id limit : ℕ) (f : TailFilter) (s : Store)
    → IsSound s
    → select_rows (tailed after_id f) s.messages
      ≡ tail_rows after_id f limit s
        ++ select_rows (tailed (last_id after_id (tail_rows after_id f limit s)) f) s.messages
unfolding tail_rows
tail_rows-pages after_id limit f s sound =
    rest_after (tail_passes f) after_id (if limit == 0 then 1000 else limit) s.messages
      sound.ascends
