-- ===== src/Store/Schedule/Order.antt =====
-- The sort of `selectScheduled` orders the rows by sender and then id, and loses none.
use tmux_tell.Common.{
  suc, ◌≤◌, true, false, List, [], ◌∷◌, ◌≡◌, refl, ◌⊎◌, inl, inr, arith, ap, ◌∙◌, if_cases, str_lt,
  eq_iff, str_lt_trans, str_lt_total, length, All, In,
}
use tmux_tell.Store.Schedule.{Candidate, before, insert, sort}

-- a comes no later than b.
abbrev pub Precedes : Candidate → Candidate → Type 0
Precedes a b =
    (str_lt a.from_agent b.from_agent ≡ true) ⊎ ((a.from_agent ≡ b.from_agent) × (a.id ≤ b.id))

before-Precedes : (a b : Candidate) → before a b ≡ true → Precedes a b
before-Precedes a b h = ground (arith, eq_iff a.from_agent b.from_agent)

not-before-Precedes : (a b : Candidate) → before a b ≡ false → Precedes b a
not-before-Precedes a b h =
    ground (arith, eq_iff a.from_agent b.from_agent, str_lt_total a.from_agent b.from_agent)

Precedes-trans : (a b c : Candidate) → Precedes a b → Precedes b c → Precedes a c
Precedes-trans a b c (inl p) (inl q) = inl (str_lt_trans _ _ _ p q)
Precedes-trans a b c (inl p) (inr q) = ground arith
Precedes-trans a b c (inr p) (inl q) = ground arith
Precedes-trans a b c (inr p) (inr q) = inr (ground arith, ground arith)

abbrev pub IsSorted : List Candidate → Type 0
IsSorted [] = Unit
IsSorted (x ∷ xs) = All (Precedes x) xs × IsSorted xs

All-trans :
    (a b : Candidate) (xs : List Candidate)
    → Precedes a b
    → All (Precedes b) xs
    → All (Precedes a) xs
All-trans a b [] p h = tt
All-trans a b (x ∷ xs) p h = (Precedes-trans a b x p h.0, All-trans a b xs p h.1)

All-insert :
    (a c : Candidate) (xs : List Candidate)
    → Precedes a c
    → All (Precedes a) xs
    → All (Precedes a) (insert c xs)
unfolding insert
All-insert a c [] p h = (p, tt)
All-insert a c (x ∷ xs) p h =
    if_cases (All (Precedes a)) (before x c) (λ _. (h.0, All-insert a c xs p h.1)) (λ _. (p, h))

insert-IsSorted : (c : Candidate) (xs : List Candidate) → IsSorted xs → IsSorted (insert c xs)
unfolding insert
insert-IsSorted c [] h = (tt, tt)
insert-IsSorted c (x ∷ xs) h =
    if_cases IsSorted (before x c)
      (λ e. (All-insert x c xs (before-Precedes x c e) h.0, insert-IsSorted c xs h.1))
      λ e. let p = not-before-Precedes x c e in ((p, All-trans c x xs p h.0), h)

pub sort-IsSorted : (cs : List Candidate) → IsSorted (sort cs)
unfolding sort
sort-IsSorted [] = tt
sort-IsSorted (c ∷ cs) = insert-IsSorted c (sort cs) (sort-IsSorted cs)

length-insert : (c : Candidate) (xs : List Candidate) → length (insert c xs) ≡ suc (length xs)
unfolding insert
length-insert c [] = refl
length-insert c (x ∷ xs) = ground (arith, length-insert c xs)

pub length-sort : (cs : List Candidate) → length (sort cs) ≡ length cs
unfolding sort
length-sort [] = refl
length-sort (c ∷ cs) = length-insert c (sort cs) ∙ ap suc (length-sort cs)

-- The sort has the same rows.
In-insert : (a c : Candidate) (xs : List Candidate) → In a (insert c xs) → (a ≡ c) ⊎ In a xs
unfolding insert
In-insert a c [] = λ h. h
In-insert a c (x ∷ xs) =
    if_cases (λ l. In a l → (a ≡ c) ⊎ In a (x ∷ xs)) (before x c)
      (λ _. elim [
        | inl e ↦ inr (inl e)
        | inr m ↦ elim (In-insert a c xs m) [ inl e ↦ inl e | inr n ↦ inr (inr n) ]
      ])
      λ _ h. h

pub In-of_sort : (a : Candidate) (cs : List Candidate) → In a (sort cs) → In a cs
unfolding sort
In-of_sort a [] h = h
In-of_sort a (c ∷ cs) h = elim (In-insert a c (sort cs) h) [
  | inl e ↦ inl e
  | inr m ↦ inr (In-of_sort a cs m)
]

In-insert_self : (c : Candidate) (xs : List Candidate) → In c (insert c xs)
unfolding insert
In-insert_self c [] = inl refl
In-insert_self c (x ∷ xs) =
    if_cases (In c) (before x c) (λ _. inr (In-insert_self c xs)) (λ _. inl refl)

In-insert_of_In : (a c : Candidate) (xs : List Candidate) → In a xs → In a (insert c xs)
unfolding insert
In-insert_of_In a c [] h = absurd h
In-insert_of_In a c (x ∷ xs) (inl e) = if_cases (In a) (before x c) (λ _. inl e) (λ _. inr (inl e))
In-insert_of_In a c (x ∷ xs) (inr m) =
    if_cases (In a) (before x c) (λ _. inr (In-insert_of_In a c xs m)) (λ _. inr (inr m))

pub In-sort : (a : Candidate) (cs : List Candidate) → In a cs → In a (sort cs)
unfolding sort
In-sort a [] h = absurd h
In-sort a (c ∷ cs) (inl e) = rw e (In-insert_self c (sort cs))
In-sort a (c ∷ cs) (inr m) = In-insert_of_In a c (sort cs) (In-sort a cs m)
