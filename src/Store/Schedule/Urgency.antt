-- ===== src/Store/Schedule/Urgency.antt =====
-- `StrategyMaxPriority`: urgent channels first, and first-in-first-out where priorities are equal.
use tmux_tell.Common.{
  ℕ, ◌≤◌, ◌+◌, String, List, [], ◌∷◌, some, ◌≡◌, refl, ap, ◌∙◌, inl, inr, arith, In, leb,
  Bool-cases, str_eq, eq_iff, if_cases,
}
use tmux_tell.Store.Schedule.{Candidate, max_priority, sort, select_scheduled}
use tmux_tell.Store.Schedule.Order.{In-of_sort, In-sort}
use tmux_tell.Store.Schedule.Channels.Spans.{of_sender, peak}
use tmux_tell.Store.Schedule.Choice.{IsScheduled-of_some, weight_of}

In-of_sender :
    (f : String) (d : Candidate) (cs : List Candidate)
    → In d cs
    → d.from_agent ≡ f
    → In d (of_sender f cs)
In-of_sender f d [] i e = i
In-of_sender f d (c ∷ cs) (inl same) e = rw (← same, (eq_iff d.from_agent f).1 e) (inl refl)
In-of_sender f d (c ∷ cs) (inr m) e =
    if_cases (In d) (str_eq c.from_agent f) (λ _. inr (In-of_sender f d cs m e))
      (λ _. In-of_sender f d cs m e)

In-of_of_sender :
    (f : String) (d : Candidate) (cs : List Candidate)
    → In d (of_sender f cs)
    → In d cs × (d.from_agent ≡ f)
In-of_of_sender f d [] = λ i. absurd i
In-of_of_sender f d (c ∷ cs) =
    if_cases (λ l. In d l → In d (c ∷ cs) × (d.from_agent ≡ f)) (str_eq c.from_agent f)
      (λ t. elim [
        | inl e ↦ (inl e, ap (λ x. x.from_agent) e ∙ (eq_iff c.from_agent f).0 t)
        | inr m ↦ let (i, e) = In-of_of_sender f d cs m in (inr i, e)
      ])
      λ _ m. let (i, e) = In-of_of_sender f d cs m in (inr i, e)

priority-le-peak :
    (pos : ℕ) (d : Candidate) (cs : List Candidate)
    → In d cs
    → d.priority ≤ peak max_priority pos cs
priority-le-peak pos d [] i = absurd i
priority-le-peak pos d (c ∷ cs) (inl e) = omega (arith, ap (λ x. x.priority) e)
priority-le-peak pos d (c ∷ cs) (inr m) = omega (arith, priority-le-peak (pos + 1) d cs m)

-- The weight is reached by a row.
peak_reached :
    (pos : ℕ) (c : Candidate) (cs : List Candidate)
    → (e : Candidate) × In e (c ∷ cs) × (peak max_priority pos (c ∷ cs) ≡ e.priority)
peak_reached pos c [] = (c, inl refl, omega arith)
peak_reached pos c (d ∷ cs) =
    let (e, m, eq) = peak_reached (pos + 1) d cs in
    elim (Bool-cases (leb c.priority e.priority)) [
      | inl le ↦ (e, inr m, ground arith)
      | inr gt ↦ (c, inl refl, ground arith)
    ]

peak_reached-In :
    (pos : ℕ) (d : Candidate) (cs : List Candidate)
    → In d cs
    → (e : Candidate) × In e cs × (peak max_priority pos cs ≡ e.priority)
peak_reached-In pos d [] i = absurd i
peak_reached-In pos d (c ∷ cs) i = peak_reached pos c cs

priority-le-weight :
    (cs : List Candidate) (d : Candidate)
    → In d cs
    → d.priority ≤ weight_of max_priority cs d.from_agent
unfolding weight_of
priority-le-weight cs d i =
    priority-le-peak 0 d (of_sender d.from_agent (sort cs))
      (In-of_sender _ d (sort cs) (In-sort d cs i) refl)

weight_reached :
    (cs : List Candidate) (d : Candidate)
    → In d cs
    → (e : Candidate) × In e cs
      × (e.from_agent ≡ d.from_agent)
      × (weight_of max_priority cs d.from_agent ≡ e.priority)
unfolding weight_of
weight_reached cs d i =
    let m = In-of_sender d.from_agent d (sort cs) (In-sort d cs i) refl in
    let (e, n, eq) = peak_reached-In 0 d (of_sender d.from_agent (sort cs)) m in
    let (k, same) = In-of_of_sender d.from_agent e (sort cs) n in (e, In-of_sort e cs k, same, eq)

-- Under the default strategy the chosen row's sender has a queued row that is at least as urgent as
-- any queued row: an urgent message behind a sender's older ones lifts that sender's channel.
pub urgent_first :
    (cs : List Candidate) (chosen : ℕ)
    → select_scheduled cs max_priority ≡ some chosen
    → (head : Candidate) × (urgent : Candidate) × In head cs
      × (head.id ≡ chosen)
      × In urgent cs
      × (urgent.from_agent ≡ head.from_agent)
      × ((d : Candidate) → In d cs → d.priority ≤ urgent.priority)
urgent_first cs chosen h =
    let good = IsScheduled-of_some max_priority cs chosen h in
    let (e, i, same, eq) = weight_reached cs good.head good.head_in in
    (
      good.head,
      e,
      good.head_in,
      good.head_id,
      i,
      same,
      λ d m. ground (arith, good.heaviest d m, priority-le-weight cs d m),
    )

-- Where all queued rows have one priority, the default strategy chooses the oldest row of all.
pub uniform-fifo :
    (cs : List Candidate) (chosen p : ℕ)
    → ((d : Candidate) → In d cs → d.priority ≡ p)
    → select_scheduled cs max_priority ≡ some chosen
    → (d : Candidate) → In d cs
    → chosen ≤ d.id
uniform-fifo cs chosen p same h d i =
    let good = IsScheduled-of_some max_priority cs chosen h in
    let (e, m, _, eq) = weight_reached cs good.head good.head_in in
    ground (arith, good.heaviest d i, priority-le-weight cs d i, same d i, same e m)
