-- ===== src/Store/Deliver/Dedupe.antt =====
-- The dedupe path: the row that `FindDedupeMatch` finds can be marked as verified.
use tmux_tell.Common.{
  ℕ, ◌<◌, ◌≤◌, String, Bool, true, false, none, some, List, [], ◌∷◌, ◌≡◌, refl, sym, ap, ◌∙◌, inl,
  inr, In, arith, Option-cases, count_rows, count_rows-cleared, update_rows, ◌==◌, All-In, map,
  eq_refl,
}
use tmux_tell.Names.{canonical_name}
use tmux_tell.Store.Tables.{Message, Store, not_found, ok, err}
use tmux_tell.Store.Integrity.{Key, key, IsSound, Ascends}
use tmux_tell.Store.Claim.Choice.{In-key}
use tmux_tell.Store.Deliver.{
  dedupe_candidate, last_row, find_dedupe_match, unverified_delivery, as_verified,
  mark_verified_by_dedupe,
}

-- The last row that passes a test.
record Last (p : Message → Bool) (ms : List Message) (m : Message) : Type 0 where
  row_in : In m ms
  passes : p m ≡ true
  newest : (n : Message) → In n ms → p n ≡ true → n.id ≤ m.id

last_row-none :
    (p : Message → Bool) (ms : List Message)
    → last_row p ms ≡ none
    → (n : Message) → In n ms
    → p n ≡ false
unfolding last_row
last_row-none p [] h n i = absurd i
last_row-none p (x ∷ ms) h n (inl e) = ap p e ∙ ground arith
last_row-none p (x ∷ ms) h n (inr i) = last_row-none p ms (ground arith) n i

last_row-Last :
    (p : Message → Bool) (ms : List Message) (m : Message)
    → Ascends (map key ms)
    → last_row p ms ≡ some m
    → Last p ms m
unfolding last_row
last_row-Last p [] m up h = absurd (ground arith)
last_row-Last p (x ∷ ms) m (a, up) h = elim (Option-cases (last_row p ms)) [
  | inl e ↦
      let is_x : x ≡ m = ground arith in
      record {
        row_in = inl (sym is_x);
        passes = ap p (sym is_x) ∙ ground arith;
        newest = λ n. elim [
          | inl q ↦ λ _. rw (q, is_x) (omega arith)
          | inr j ↦ λ t. absurd (ground (arith, last_row-none p ms e n j))
        ];
      }
  | inr (k, e) ↦
      let l = last_row-Last p ms m up (e ∙ ground arith) in
      record {
        row_in = inr l.row_in;
        passes = l.passes;
        newest = λ n. elim [ inl q ↦ λ _. rw q (below l.row_in) | inr j ↦ l.newest n j ];
      }
]
  where
    below : In m ms → x.id ≤ m.id
    below i =
        let l = All-In (λ (k : Key). x.id < k.id) (map key ms) (key m) a (In-key m ms i) in
        omega arith

pub record Deduped (from to body : String) (cutoff : ℕ) (s : Store) (m : Message) : Type 0 where
  pub row_in : In m s.messages
  pub matches : dedupe_candidate (canonical_name from) (canonical_name to) body cutoff m ≡ true
  pub newest :
      (n : Message)
      → In n s.messages
      → dedupe_candidate (canonical_name from) (canonical_name to) body cutoff n ≡ true
      → n.id ≤ m.id
  pub marked : (mark_verified_by_dedupe m.public_id s).0 ≡ ok tt
  pub once :
      (mark_verified_by_dedupe m.public_id (mark_verified_by_dedupe m.public_id s).1).0
      ≡ err not_found

count_rows-In :
    (p : Message → Bool) (ms : List Message) (m : Message)
    → In m ms
    → p m ≡ true
    → 0 < count_rows p ms
count_rows-In p [] m i h = absurd i
count_rows-In p (x ∷ ms) m (inl e) h = ground (arith, ap p e)
count_rows-In p (x ∷ ms) m (inr i) h = ground (arith, count_rows-In p ms m i h)

-- In a sound store the match that is found is the newest row between the two agents with that text
-- that was left unverified in an input box after the cutoff; marking it as verified succeeds, and
-- doing so again does not.
pub find_dedupe_match-Deduped :
    (from to body : String) (cutoff : ℕ) (s : Store) (m : Message)
    → IsSound s
    → find_dedupe_match from to body cutoff s ≡ some m
    → Deduped from to body cutoff s m
unfolding find_dedupe_match mark_verified_by_dedupe
find_dedupe_match-Deduped from to body cutoff s m sound h =
    let p0 = dedupe_candidate (canonical_name from) (canonical_name to) body cutoff in
    let l : Last p0 s.messages m = last_row-Last p0 s.messages m sound.ascends h in
    let p = unverified_delivery m.public_id in
    let there : 0 < count_rows (unverified_delivery m.public_id) s.messages =
      count_rows-In p s.messages m l.row_in (ground (arith, l.passes, eq_refl m.public_id)) in
    let some_row : (count_rows p s.messages == 0) ≡ false = ground arith in
    let none_after : (count_rows p (update_rows p as_verified s.messages) == 0) ≡ true =
      ground (arith, count_rows-cleared p as_verified s.messages (λ n t. ground arith)) in
    record {
      row_in = l.row_in;
      matches = l.passes;
      newest = l.newest;
      marked = rw some_row refl;
      once = rw (some_row, none_after) refl;
    }
