-- ===== src/Store/Pulse/Oldest.antt =====
-- What `RecipientOldestPendingAt` returns.
use tmux_tell.Common.{
  ℕ, ◌≤◌, String, Bool, true, false, Option, none, some, List, [], ◌∷◌, ◌≡◌, refl, ap, ◌∙◌, inl,
  inr, In, arith, Bool-cases, leb,
}
use tmux_tell.Names.{canonical_name}
use tmux_tell.Store.Tables.{Message, Store}
use tmux_tell.Store.Pulse.{pending_to, or_min, min_created_at, recipient_oldest_pending_at}

-- The time is that of a selected row, and no selected row is older.
pub record Oldest (p : Message → Bool) (ms : List Message) (t : ℕ) : Type 0 where
  pub row : Message
  pub row_in : In row ms
  pub selected : p row ≡ true
  pub time : row.created_at ≡ t
  pub least : (m : Message) → In m ms → p m ≡ true → t ≤ m.created_at

abbrev pub IsOldest : (Message → Bool) → List Message → Option ℕ → Type 0
IsOldest p ms none = (m : Message) → In m ms → p m ≡ false
IsOldest p ms (some t) = Oldest p ms t

skip-IsOldest :
    (p : Message → Bool) (x : Message) (ms : List Message) (o : Option ℕ)
    → p x ≡ false
    → IsOldest p ms o
    → IsOldest p (x ∷ ms) o
skip-IsOldest p x ms none f h = λ m. elim [ inl e ↦ ap p e ∙ f | inr i ↦ h m i ]
skip-IsOldest p x ms (some t) f h = record {
  row = h.row;
  row_in = inr h.row_in;
  selected = h.selected;
  time = h.time;
  least = λ m. elim [ inl e ↦ λ s. absurd (ground (arith, ap p e)) | inr i ↦ h.least m i ];
}

take-IsOldest :
    (p : Message → Bool) (x : Message) (ms : List Message) (o : Option ℕ)
    → p x ≡ true
    → IsOldest p ms o
    → Oldest p (x ∷ ms) (or_min x.created_at o)
take-IsOldest p x ms none f h = record {
  row = x;
  row_in = inl refl;
  selected = f;
  time = refl;
  least =
      λ m. elim [ inl e ↦ λ s. rw e (omega arith) | inr i ↦ λ s. absurd (ground (arith, h m i)) ];
}
take-IsOldest p x ms (some t) f h = elim (Bool-cases (leb x.created_at t)) [
  | inl l ↦ record {
    row = x;
    row_in = inl refl;
    selected = f;
    time = ground arith;
    least =
        λ m. elim [ inl e ↦ λ s. rw e (omega arith) | inr i ↦ λ s. ground (arith, h.least m i s) ];
  }
  | inr g ↦ record {
    row = h.row;
    row_in = inr h.row_in;
    selected = h.selected;
    time = let e = h.time in ground arith;
    least =
        λ m. elim [ inl e ↦ λ s. rw e (omega arith) | inr i ↦ λ s. ground (arith, h.least m i s) ];
  }
]

min_created_at-IsOldest :
    (p : Message → Bool) (ms : List Message) → IsOldest p ms (min_created_at p ms)
unfolding min_created_at
min_created_at-IsOldest p [] = λ m i. absurd i
min_created_at-IsOldest p (x ∷ ms) =
    let rest = min_created_at-IsOldest p ms in
    elim (Bool-cases (p x)) [
      | inl t ↦ rw t (take-IsOldest p x ms (min_created_at p ms) t rest)
      | inr f ↦ rw f (skip-IsOldest p x ms (min_created_at p ms) f rest)
    ]

-- The time that is returned is that of a pending message or control row for the agent, and none of
-- them is older; if none is returned, there is no such row.
pub recipient_oldest_pending_at-IsOldest :
    (to : String) (s : Store)
    → IsOldest (pending_to (canonical_name to)) s.messages (recipient_oldest_pending_at to s)
unfolding recipient_oldest_pending_at
recipient_oldest_pending_at-IsOldest to s =
    min_created_at-IsOldest (pending_to (canonical_name to)) s.messages
