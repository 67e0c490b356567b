-- ===== src/Store/Insert/Atomic.antt =====
-- `InsertMessagePair` writes both rows or neither.
use mathlib.Core.List.{append_assoc}
use tmux_tell.Common.{
  ◌⊎◌, inr, inl, ℕ, suc, String, Bool, true, false, Option, [], ◌∷◌, ◌++◌, ◌≡◌, refl, ap, ◌∙◌,
  Option-cases, if_cases, str_eq, inl, inr,
}
use tmux_tell.Store.Tables.{Message, Store, Error, cap_rejected, CapError, Result, ok, err}
use tmux_tell.Store.Insert.{
  InsertParams, InsertResult, canonical_params, queue_depth, check_caps_in_tx, nullable,
}
use tmux_tell.Store.Insert.Attempts.{append_row, queued_row, insert_one_in_tx, insert_refused_row}
use tmux_tell.Store.Insert.Operations.{
  ring_if_queued, with_first, with_second, linked, insert_pair_checked, insert_message_pair,
  pair_error,
}
use tmux_tell.Store.Insert.Outcomes.{
  redrawn, Placed, insert_one_in_tx-Placed, insert_refused_row-Recorded,
}
use tmux_tell.Store.Insert.Caps.{queue_depth-redrawn}
use tmux_tell.Store.Insert.Refused.{LeavesRecord, Recorded-LeavesRecord}

abbrev pub is_rejection : Error → Bool
is_rejection (cap_rejected h e) = true
is_rejection _ = false

-- A linked row replies to the first one.
abbrev pub Threaded : Bool → String → Message → Type 0
Threaded true i m = m.reply_to ≡ nullable i
Threaded false i m = Unit

-- Both rows, one after the other at the end of the table, or no row that is queued.
pub record BothRows (link : Bool) (s : Store) (r1 r2 : InsertResult) (t : Store) : Type 0 where
  pub row1 : Message
  pub row2 : Message
  pub appended : t.messages ≡ s.messages ++ row1 ∷ row2 ∷ []
  pub id1 : (row1.public_id ≡ r1.public_id) × (row1.id ≡ s.next_id)
  pub id2 : (row2.public_id ≡ r2.public_id) × (row2.id ≡ suc s.next_id)
  pub thread : Threaded link r1.public_id row2

pub record NoRow (s : Store) (e : Error) (t : Store) : Type 0 where
  pub depths : (to : String) → queue_depth to t ≡ queue_depth to s
  pub silent : t.rings ≡ s.rings
  pub unchanged : (is_rejection e ≡ true) ⊎ (t.messages ≡ s.messages)

abbrev pub IsAtomic : Bool → Store → Result (InsertResult × InsertResult) × Store → Type 0
IsAtomic link s (ok (r1, r2), t) = BothRows link s r1 r2 t
IsAtomic link s (err e, t) = NoRow s e t

NoRow-redrawn : (s : Store) (e : Error) (k : ℕ) → NoRow s e (redrawn s k)
NoRow-redrawn s e k = record {
  depths = λ to. queue_depth-redrawn to s k;
  silent = refl;
  unchanged = inr refl;
}

linked-Threaded :
    (link : Bool) (p : InsertParams) (i : String) (now : ℕ) (j : String) (id : ℕ)
    → Threaded link i (record (queued_row (linked link p i) now j) { id = id })
unfolding queued_row
linked-Threaded true p i now j id = refl
linked-Threaded false p i now j id = tt

row-public_id : (p : InsertParams) (now : ℕ) (i : String) → (queued_row p now i).public_id ≡ i
unfolding queued_row
row-public_id p now i = refl

messages-ring : (p : InsertParams) (s : Store) → (ring_if_queued p s).messages ≡ s.messages
messages-ring p s =
    if_cases (λ (t : Store). t.messages ≡ s.messages) (str_eq p.deliver_after "") (λ _. refl)
      (λ _. refl)

module _ (draws : ℕ → Option String) (now : ℕ) where
  with_second-IsAtomic :
      (link : Bool) (p1 p2 : InsertParams) (s t : Store) (k : ℕ) (r1 : InsertResult)
      (x : Result InsertResult × Store)
      → t ≡ append_row (queued_row p1 now r1.public_id) (redrawn s k)
      → Placed draws (linked link p2 r1.public_id) now t x
      → IsAtomic link s (with_second (ring_if_queued p1) s r1 x)
  with_second-IsAtomic link p1 p2 s t k r1 (ok r2, u) q ((j, v), f, d) = record {
    row1 = record (queued_row p1 now r1.public_id) { id = s.next_id };
    row2 = record (queued_row (linked link p2 r1.public_id) now r2.public_id) {
      id = suc s.next_id;
    };
    appended =
        messages-ring p1 u
        ∙ ap (λ (w : Store). w.messages) v
        ∙ ap
            (λ (w : Store).
              w.messages
              ++ record (queued_row (linked link p2 r1.public_id) now r2.public_id) {
                id = w.next_id;
              }
                ∷ [])
            q
        ∙ append_assoc s.messages _ _;
    id1 = (row-public_id p1 now r1.public_id, refl);
    id2 = (row-public_id (linked link p2 r1.public_id) now r2.public_id, refl);
    thread = linked-Threaded link p2 r1.public_id now r2.public_id (suc s.next_id);
  }
  with_second-IsAtomic link p1 p2 s t k r1 (err e, u) q (j, v) = NoRow-redrawn s e u.drawn

  with_first-IsAtomic :
      (link : Bool) (p1 p2 : InsertParams) (s : Store) (x : Result InsertResult × Store)
      → Placed draws p1 now s x
      → IsAtomic link s (with_first draws now link p2 (ring_if_queued p1) s x)
  with_first-IsAtomic link p1 p2 s (ok r1, t) ((k, q), f, d) =
      with_second-IsAtomic link p1 p2 s t k r1 _ q
        (insert_one_in_tx-Placed draws (linked link p2 r1.public_id) now t)
  with_first-IsAtomic link p1 p2 s (err e, t) (k, q) = NoRow-redrawn s e t.drawn

  rejected_pair-NoRow :
      (p1 p2 : InsertParams) (e : CapError) (s : Store) (x : Option String × Store)
      → LeavesRecord p1 e now s x.0 x.1
      → NoRow s (cap_rejected x.0 e) (insert_refused_row draws p2 e now x.1).1
  rejected_pair-NoRow p1 p2 e s x l =
      let y = insert_refused_row draws p2 e now x.1 in
      let m =
        Recorded-LeavesRecord draws now p2 e x.1 y.0 y.1
          (insert_refused_row-Recorded draws p2 e now x.1) in
      record {
        depths = λ to. m.depths to ∙ l.depths to;
        silent = m.silent ∙ l.silent;
        unchanged = inl refl;
      }

  pair_checked-IsAtomic :
      (p1 p2 : InsertParams) (link : Bool) (s : Store)
      → IsAtomic link s (insert_pair_checked draws now p1 p2 link s)
  unfolding insert_pair_checked
  pair_checked-IsAtomic p1 p2 link s = elim (Option-cases (check_caps_in_tx p1 2 s)) [
    | inl within ↦
        rw (within, insert_pair_checked)
          (with_first-IsAtomic link p1 p2 s (insert_one_in_tx draws p1 now s)
            (insert_one_in_tx-Placed draws p1 now s))
    | inr (e, over) ↦
        rw (over, insert_pair_checked)
          (rejected_pair-NoRow p1 p2 e s (insert_refused_row draws p1 e now s) (
            Recorded-LeavesRecord draws now p1 e s _ _
              (insert_refused_row-Recorded draws p1 e now s)))
  ]

  -- A pair of messages lands whole or not at all. If the call succeeds, exactly two rows were added,
  -- one after the other, under the public ids that it returns, and a linked second row replies to the
  -- first. If it fails, no queue grew and no doorbell rang, and unless it failed on a cap, where
  -- refused rows may be written, the table of messages is unchanged.
  pub insert_message_pair-IsAtomic :
      (p1 p2 : InsertParams) (link : Bool) (s : Store)
      → IsAtomic link s (insert_message_pair draws now p1 p2 link s)
  unfolding insert_message_pair
  insert_message_pair-IsAtomic p1 p2 link s =
      elim (Option-cases (pair_error link (canonical_params p1) (canonical_params p2) s)) [
        | inl fine ↦
            rw (fine, insert_message_pair)
              (pair_checked-IsAtomic (canonical_params p1) (canonical_params p2) link s)
        | inr (e, bad) ↦ rw (bad, insert_message_pair) (NoRow-redrawn s e s.drawn)
      ]
