-- ===== src/Store/Backlog/Floor.antt =====
-- The floor that `QueuedBacklogFloor` computes keeps the newest rows and leaves out the others.
use mathlib.Core.List.{reverse, reverse-cons}
use tmux_tell.Common.{
  ℕ, zero, suc, ◌+◌, ◌<◌, String, Bool, false, List, [], ◌∷◌, ◌++◌, ◌≡◌, refl, sym, ap, ◌∙◌, arith,
  length, map, All, select_rows, count_rows, count_rows-eq-length, ltb, leb, ◌==◌, length-append,
  Bool-cases, inl, inr, ltb→lt, ◌&&◌, ◌||◌,
}
use tmux_tell.Names.{canonical_name}
use tmux_tell.Store.Tables.{Message, Store}
use tmux_tell.Store.Integrity.{Key, key, IsSound, Ascends}
use tmux_tell.Store.Insert.{queued_to, queue_depth}
use tmux_tell.Store.Backlog.{nth_or_zero, queued_backlog_floor, residue}
use tmux_tell.Store.Reset.Whole.{Ascends-select_rows}

abbrev above : ℕ → Message → Bool
above n m = ltb n m.id

nth_or_zero-front :
    (xs ys : List Message) (k : ℕ) → k < length xs → nth_or_zero (xs ++ ys) k ≡ nth_or_zero xs k
nth_or_zero-front [] ys k h = absurd (omega arith)
nth_or_zero-front (x ∷ xs) ys zero h = refl
nth_or_zero-front (x ∷ xs) ys (suc k) h = nth_or_zero-front xs ys k (omega arith)

nth_or_zero-last :
    (xs : List Message) (m : Message) (k : ℕ) → k ≡ length xs → nth_or_zero (xs ++ m ∷ []) k ≡ m.id
nth_or_zero-last [] m zero h = refl
nth_or_zero-last [] m (suc k) h = absurd (omega arith)
nth_or_zero-last (x ∷ xs) m zero h = absurd (omega arith)
nth_or_zero-last (x ∷ xs) m (suc k) h = nth_or_zero-last xs m k (omega arith)

length-reverse : (xs : List Message) → length (reverse xs) ≡ length xs
length-reverse [] = refl
length-reverse (x ∷ xs) =
    ap length (reverse-cons x xs)
    ∙ omega (arith, length-append (reverse xs) (x ∷ []), length-reverse xs)

All-above :
    (n : ℕ) (xs : List Message)
    → All (λ (k : Key). n < k.id) (map key xs)
    → count_rows (above n) xs ≡ length xs
All-above n [] h = refl
All-above n (x ∷ xs) (p, h) = ground (arith, All-above n xs h)

-- The row at a place from the end: of the tail, or the head.
nth-cons :
    (x : Message) (xs : List Message) (k : ℕ)
    → k < length xs
    → nth_or_zero (reverse (x ∷ xs)) k ≡ nth_or_zero (reverse xs) k
nth-cons x xs k h =
    ap (λ (l : List Message). nth_or_zero l k) (reverse-cons x xs)
    ∙ nth_or_zero-front (reverse xs) (x ∷ []) k (omega (arith, length-reverse xs))

nth-head :
    (x : Message) (xs : List Message) (k : ℕ)
    → k ≡ length xs
    → nth_or_zero (reverse (x ∷ xs)) k ≡ x.id
nth-head x xs k h =
    ap (λ (l : List Message). nth_or_zero l k) (reverse-cons x xs)
    ∙ nth_or_zero-last (reverse xs) x k (omega (arith, length-reverse xs))

nth-above :
    (n : ℕ) (xs : List Message) (k : ℕ)
    → All (λ (j : Key). n < j.id) (map key xs)
    → k < length xs
    → n < nth_or_zero (reverse xs) k
nth-above n [] k h l = absurd (omega arith)
nth-above n (x ∷ xs) k (p, h) l = elim (Bool-cases (ltb k (length xs))) [
  | inl t ↦ omega (arith, nth-cons x xs k (ltb→lt _ _ t), nth-above n xs k h (ltb→lt _ _ t))
  | inr f ↦ omega (arith, nth-head x xs k (ground arith))
]

kept-newest :
    (xs : List Message) (k : ℕ)
    → Ascends (map key xs)
    → k < length xs
    → count_rows (above (nth_or_zero (reverse xs) k)) xs ≡ k
kept-newest [] k h l = absurd (omega arith)
kept-newest (x ∷ xs) k (a, up) l = elim (Bool-cases (ltb k (length xs))) [
  | inl t ↦
      let lt = ltb→lt _ _ t in
      let low = nth-above x.id xs k a lt in
      let rest = kept-newest xs k up lt in
      ap (λ (n : ℕ). count_rows (above n) (x ∷ xs)) (nth-cons x xs k lt) ∙ ground arith
  | inr f ↦
      let e : k ≡ length xs = ground arith in
      let rest = All-above x.id xs a in
      ap (λ (n : ℕ). count_rows (above n) (x ∷ xs)) (nth-head x xs k e) ∙ ground arith
]

count-select :
    (p q : Message → Bool) (ms : List Message)
    → count_rows q (select_rows p ms) ≡ count_rows (λ m. p m && q m) ms
count-select p q [] = refl
count-select p q (m ∷ ms) = ground (arith, count-select p q ms)

count-split :
    (p : Message → Bool) (n : ℕ) (ms : List Message)
    → count_rows (λ m. p m && ltb n m.id) ms + count_rows (λ m. p m && leb m.id n) ms
      ≡ count_rows p ms
count-split p n [] = refl
count-split p n (m ∷ ms) = ground (arith, count-split p n ms)

-- What the floor says of the queue of an agent.
pub record Floored (to : String) (keep : ℕ) (s : Store) : Type 0 where
  pub above_it :
      count_rows
        (λ m. queued_to (canonical_name to) m && ltb (queued_backlog_floor to keep s).0 m.id)
        s.messages
      ≡ keep
  pub skipped :
      count_rows (residue (canonical_name to) (queued_backlog_floor to keep s).0) s.messages
      ≡ (queued_backlog_floor to keep s).1

-- In a sound store where more than `keep` messages are queued for the agent, just `keep` of them are
-- above the floor that is returned, and the number of skipped messages returned is that of the queued
-- ones at or below it, which `MarkAcknowledgedBatch` would acknowledge.
pub queued_backlog_floor-Floored :
    (to : String) (keep : ℕ) (s : Store)
    → IsSound s
    → keep < queue_depth (canonical_name to) s
    → Floored to keep s
unfolding queued_backlog_floor queue_depth
queued_backlog_floor-Floored to keep s sound deep =
    let p = queued_to (canonical_name to) in
    let qs = select_rows p s.messages in
    let len = count_rows-eq-length p s.messages in
    let many : (count_rows p s.messages == 0 || leb (count_rows p s.messages) keep) ≡ false =
      ground arith in
    let n = nth_or_zero (reverse qs) keep in
    let newest =
      kept-newest qs keep (Ascends-select_rows p s.messages sound.ascends) (omega (arith, len)) in
    let chosen = count-select p (above n) s.messages in
    record {
      above_it = rw many (sym chosen ∙ newest);
      skipped = rw many (omega (arith, count-split p n s.messages, chosen, newest));
    }
