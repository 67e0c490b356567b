-- ===== src/Store/Schedule/Channels/Spans.antt =====
-- The inner loop of `selectScheduled` on sorted rows: one sender's rows, and the rows of the others.
use tmux_tell.Common.{
  ℕ, ◌+◌, ◌≤◌, max, String, true, false, not, List, [], ◌∷◌, ◌≡◌, refl, ◌⊎◌, inl, inr, arith,
  str_eq, str_lt, eq_iff, str_lt_irrefl, str_lt_trans, eq_refl, ltb, if◌then◌else◌, if_cases,
  length, All, In, select_rows,
}
use tmux_tell.Store.Schedule.{Candidate, Strategy, row_weight, channel_weight}
use tmux_tell.Store.Schedule.Order.{IsSorted, Precedes}

abbrev pub of_sender : String → List Candidate → List Candidate
of_sender f = select_rows (λ c. str_eq c.from_agent f)

abbrev pub except : String → List Candidate → List Candidate
except f = select_rows (λ c. not (str_eq c.from_agent f))

-- The largest weight of a channel whose first row has the given position.
abbrev pub peak : Strategy → ℕ → List Candidate → ℕ
peak s pos [] = 0
peak s pos (c ∷ cs) = max (row_weight s pos c) (peak s (pos + 1) cs)

-- f comes no later than the sender of c.
abbrev FromUp : String → Candidate → Type 0
FromUp f c = (str_lt f c.from_agent ≡ true) ⊎ (f ≡ c.from_agent)

lt_ne : (f g : String) → str_lt f g ≡ true → str_eq g f ≡ false
lt_ne f g h = ground (arith, eq_iff g f, str_lt_irrefl f)

lt-Precedes :
    (f : String) (c d : Candidate)
    → str_lt f c.from_agent ≡ true
    → Precedes c d
    → str_lt f d.from_agent ≡ true
lt-Precedes f c d h (inl q) = str_lt_trans f _ _ h q
lt-Precedes f c d h (inr (e, _)) = ground arith

above :
    (f : String) (c : Candidate) (cs : List Candidate)
    → str_lt f c.from_agent ≡ true
    → All (Precedes c) cs
    → (of_sender f cs ≡ []) × (except f cs ≡ cs)
above f c [] h p = (refl, refl)
above f c (d ∷ cs) h (p, ps) =
    let (none_left, all_left) = above f c cs h ps in
    let ne = lt_ne f d.from_agent (lt-Precedes f c d h p) in (ground arith, ground arith)

pub channel_weight-eq :
    (s : Strategy) (f : String) (pos weight : ℕ) (cs : List Candidate)
    → IsSorted cs
    → All (FromUp f) cs
    → channel_weight s f pos weight cs ≡ (max weight (peak s pos (of_sender f cs)), except f cs)
unfolding channel_weight
channel_weight-eq s f pos weight [] o b = ground arith
channel_weight-eq s f pos weight (c ∷ cs) o (inl lt, b) =
    let (none_left, all_left) = above f c cs lt o.0 in
    rw (lt_ne f c.from_agent lt, none_left, all_left) (ground arith)
channel_weight-eq s f pos weight (c ∷ cs) o (inr e, b) = ground (
  arith,
  eq_refl f,
  channel_weight-eq s f (pos + 1)
      (if ltb weight (row_weight s pos c) then row_weight s pos c else weight) cs o.1 b,
)

-- Sorted rows begin at the sender of the first.
pub sorted_bound :
    (c : Candidate) (cs : List Candidate) → IsSorted (c ∷ cs) → All (FromUp c.from_agent) (c ∷ cs)
sorted_bound c cs (p, _) = (inr refl, go cs p)
  where
    go : (ds : List Candidate) → All (Precedes c) ds → All (FromUp c.from_agent) ds
    go [] h = tt
    go (d ∷ ds) (inl l, h) = (inl l, go ds h)
    go (d ∷ ds) (inr (e, _), h) = (inr e, go ds h)

All-except :
    (f : String) (a : Candidate) (cs : List Candidate)
    → All (Precedes a) cs
    → All (Precedes a) (except f cs)
All-except f a [] h = tt
All-except f a (c ∷ cs) (p, h) =
    if_cases (All (Precedes a)) (not (str_eq c.from_agent f)) (λ _. (p, All-except f a cs h))
      (λ _. All-except f a cs h)

pub except-IsSorted : (f : String) (cs : List Candidate) → IsSorted cs → IsSorted (except f cs)
except-IsSorted f [] h = tt
except-IsSorted f (c ∷ cs) (p, h) =
    if_cases IsSorted (not (str_eq c.from_agent f))
      (λ _. (All-except f c cs p, except-IsSorted f cs h)) (λ _. except-IsSorted f cs h)

length-except : (f : String) (cs : List Candidate) → length (except f cs) ≤ length cs
length-except f [] = omega arith
length-except f (c ∷ cs) = ground (arith, length-except f cs)

-- A round consumes at least the row that it starts at.
pub length-except_head :
    (c : Candidate) (cs : List Candidate) → length (except c.from_agent (c ∷ cs)) ≤ length cs
length-except_head c cs = ground (arith, eq_refl c.from_agent, length-except c.from_agent cs)

pub In-except :
    (f : String) (d : Candidate) (cs : List Candidate)
    → In d cs
    → str_eq d.from_agent f ≡ false
    → In d (except f cs)
In-except f d [] h ne = h
In-except f d (c ∷ cs) (inl e) ne = rw (← e, ne) (inl refl)
In-except f d (c ∷ cs) (inr m) ne =
    if_cases (In d) (not (str_eq c.from_agent f)) (λ _. inr (In-except f d cs m ne))
      (λ _. In-except f d cs m ne)

pub In-of_except :
    (f : String) (d : Candidate) (cs : List Candidate)
    → In d (except f cs)
    → In d cs × (str_eq d.from_agent f ≡ false)
In-of_except f d [] = λ h. absurd h
In-of_except f d (c ∷ cs) =
    if_cases (λ l. In d l → In d (c ∷ cs) × (str_eq d.from_agent f ≡ false))
      (not (str_eq c.from_agent f))
      (λ t. elim [
        | inl e ↦ (inl e, ground arith)
        | inr m ↦ let (i, ne) = In-of_except f d cs m in (inr i, ne)
      ])
      λ _ m. let (i, ne) = In-of_except f d cs m in (inr i, ne)

-- Taking away one sender leaves the rows of the others.
pub of_sender-except :
    (f g : String) (cs : List Candidate)
    → str_eq g f ≡ false
    → of_sender g (except f cs) ≡ of_sender g cs
of_sender-except f g [] ne = refl
of_sender-except f g (c ∷ cs) ne =
    ground
      (arith, eq_iff c.from_agent f, eq_iff c.from_agent g, eq_iff g f, of_sender-except f g cs ne)
