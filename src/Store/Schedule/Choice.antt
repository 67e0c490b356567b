-- ===== src/Store/Schedule/Choice.antt =====
-- What `selectScheduled` chooses: the head of a heaviest channel, oldest head first.
use tmux_tell.Common.{
  ℕ, ◌≤◌, ◌<◌, String, List, [], ◌∷◌, Option, none, some, ◌≡◌, refl, ap, ◌∙◌, ◌⊎◌, inl, inr, arith,
  length, In, Bool-cases, ltb, ◌==◌, ◌||◌, ◌&&◌, subst,
}
use tmux_tell.Store.Schedule.{Candidate, Strategy, sort, better, select_scheduled}
use tmux_tell.Store.Schedule.Order.{sort-IsSorted, length-sort, In-of_sort, In-sort}
use tmux_tell.Store.Schedule.Channels.{
  Channel, channels, pick, scan_channels-pick, channels-IsChannel, channels_complete,
}
use tmux_tell.Store.Schedule.Channels.Spans.{of_sender, peak}

-- (w, h) is at least as good as (v, k): heavier, or as heavy with a head that is no younger.
abbrev pub Beats : ℕ → ℕ → ℕ → ℕ → Type 0
Beats w h v k = (v < w) ⊎ ((v ≡ w) × (h ≤ k))

-- What `pick` returns from a best so far: something listed or the start, and at least as good as all.
record Picked (w₀ h₀ : ℕ) (chs : List Channel) (r : Option (ℕ × ℕ)) : Type 0 where
  weight : ℕ
  head : ℕ
  found : r ≡ some (weight, head)
  beats_start : Beats weight head w₀ h₀
  beats_all : (ch : Channel) → In ch chs → Beats weight head ch.1 ch.2
  origin : ((weight ≡ w₀) × (head ≡ h₀)) ⊎ ((f : String) × In (f, weight, head) chs)

-- One comparison keeps the better of two.
record Better (w h v k : ℕ) (r : Option (ℕ × ℕ)) : Type 0 where
  weight : ℕ
  head : ℕ
  found : r ≡ some (weight, head)
  beats_old : Beats weight head w h
  beats_new : Beats weight head v k
  origin : ((weight ≡ w) × (head ≡ h)) ⊎ ((weight ≡ v) × (head ≡ k))

better-Better : (w h v k : ℕ) → Better w h v k (better (some (w, h)) v k)
better-Better w h v k = elim (Bool-cases (ltb w v || (v == w && ltb k h))) [
  | inl t ↦ record {
    weight = v;
    head = k;
    found = ground arith;
    beats_old = ground arith;
    beats_new = ground arith;
    origin = inr (refl, refl);
  }
  | inr f ↦ record {
    weight = w;
    head = h;
    found = ground arith;
    beats_old = ground arith;
    beats_new = ground arith;
    origin = inl (refl, refl);
  }
]

Beats-trans : (w h v k u j : ℕ) → Beats w h v k → Beats v k u j → Beats w h u j
Beats-trans w h v k u j p q = ground arith

pick-Picked : (w h : ℕ) (chs : List Channel) → Picked w h chs (pick (some (w, h)) chs)
unfolding pick
pick-Picked w h [] = record {
  weight = w;
  head = h;
  found = refl;
  beats_start = ground arith;
  beats_all = λ ch i. absurd i;
  origin = inl (refl, refl);
}
pick-Picked w h ((f, v, k) ∷ chs) =
    let b = better-Better w h v k in
    let p = pick-Picked b.weight b.head chs in
    record {
      weight = p.weight;
      head = p.head;
      found = rw b.found p.found;
      beats_start = Beats-trans _ _ _ _ _ _ p.beats_start b.beats_old;
      beats_all = λ ch. elim [
        | inl e ↦ rw e (Beats-trans _ _ _ _ _ _ p.beats_start b.beats_new)
        | inr m ↦ p.beats_all ch m
      ];
      origin = origin p.origin b.origin;
    }
  where
    origin :
        {a c d e : ℕ}
        → ((a ≡ d) × (c ≡ e)) ⊎ ((g : String) × In (g, a, c) chs)
        → ((d ≡ w) × (e ≡ h)) ⊎ ((d ≡ v) × (e ≡ k))
        → ((a ≡ w) × (c ≡ h)) ⊎ ((g : String) × In (g, a, c) ((f, v, k) ∷ chs))
    origin (inl (p, q)) (inl (x, y)) = inl (p ∙ x, q ∙ y)
    origin (inl (p, q)) (inr (x, y)) = inr (f, inl (cc))
    origin (inr (g, m)) _ = inr (g, inr m)

-- The weight of a sender's channel: its largest row weight, the rows counted from the oldest.
unfoldable pub weight_of : Strategy → List Candidate → String → ℕ
weight_of s cs f = peak s 0 (of_sender f (sort cs))

-- The chosen id is that of `head`: the oldest row of its sender, whose channel weighs at least as
-- much as every other; of channels as heavy, the one with the oldest head.
pub record IsScheduled (s : Strategy) (cs : List Candidate) (chosen : ℕ) : Type 0 where
  pub head : Candidate
  pub head_in : In head cs
  pub head_id : head.id ≡ chosen
  pub fifo : (d : Candidate) → In d cs → d.from_agent ≡ head.from_agent → chosen ≤ d.id
  pub heaviest :
      (d : Candidate)
      → In d cs
      → (weight_of s cs d.from_agent < weight_of s cs head.from_agent)
        ⊎ ((weight_of s cs d.from_agent ≡ weight_of s cs head.from_agent) × (chosen ≤ d.id))

record Best (chs : List Channel) (r : Option (ℕ × ℕ)) : Type 0 where
  weight : ℕ
  chosen : ℕ
  found : r ≡ some (weight, chosen)
  sender : String
  listed : In (sender, weight, chosen) chs
  beats_all : (ch : Channel) → In ch chs → Beats weight chosen ch.1 ch.2

pick-Best : (ch : Channel) (chs : List Channel) → In ch chs → Best chs (pick none chs)
unfolding pick
pick-Best ch [] i = absurd i
pick-Best ch ((f, v, k) ∷ chs) i =
    let p = pick-Picked v k chs in
    record {
      weight = p.weight;
      chosen = p.head;
      found = p.found;
      sender = elim p.origin [ inl _ ↦ f | inr (g, _) ↦ g ];
      listed = listed p.origin;
      beats_all = λ d. elim [ inl e ↦ rw e p.beats_start | inr m ↦ p.beats_all d m ];
    }
  where
    listed :
        {a c : ℕ}
        → (o : ((a ≡ v) × (c ≡ k)) ⊎ ((g : String) × In (g, a, c) chs))
        → In (elim o [ inl _ ↦ f | inr (g, _) ↦ g ], a, c) ((f, v, k) ∷ chs)
    listed (inl (x, y)) = inl (cc)
    listed (inr (g, m)) = inr m

-- The outer loop over the sorted rows, with the number of rows for fuel.
abbrev all_channels : Strategy → List Candidate → List Channel
all_channels s cs = channels s (length cs) (sort cs)

listed_channel :
    (s : Strategy) (cs : List Candidate) (d : Candidate)
    → In d cs
    → (weight : ℕ) × (head : ℕ) × In (d.from_agent, weight, head) (all_channels s cs)
listed_channel s cs d i =
    channels_complete s (length cs) (sort cs) d (sort-IsSorted cs) (omega (arith, length-sort cs))
      (In-sort d cs i)

Best-IsScheduled :
    (s : Strategy) (cs : List Candidate) {r : Option (ℕ × ℕ)} (b : Best (all_channels s cs) r)
    → IsScheduled s cs b.chosen
unfolding weight_of
Best-IsScheduled s cs b =
    let is_channel = channels-IsChannel s (length cs) (sort cs) in
    let c = is_channel (b.sender, b.weight, b.chosen) (sort-IsSorted cs) b.listed in
    record {
      head = c.head;
      head_in = In-of_sort c.head cs c.head_in;
      head_id = c.head_id;
      fifo = λ d i e. c.oldest d (In-sort d cs i) (e ∙ c.head_from);
      heaviest = λ d i.
          let (v, k, m) = listed_channel s cs d i in
          let o = is_channel (d.from_agent, v, k) (sort-IsSorted cs) m in
          let k_le = o.oldest d (In-sort d cs i) refl in
          let w_eq = ap (λ f. peak s 0 (of_sender f (sort cs))) c.head_from in
          let beats = b.beats_all (d.from_agent, v, k) m in
          ground (arith, o.weight_eq, c.weight_eq);
    }

-- For any queued rows, under either strategy, a row is chosen, and it is the head of a heaviest
-- channel: no row of its sender is older, no other channel weighs more, and a channel of the same
-- weight has no older row.
pub select_scheduled-IsScheduled :
    (s : Strategy) (c : Candidate) (cs : List Candidate)
    → (chosen : ℕ) × (select_scheduled (c ∷ cs) s ≡ some chosen) × IsScheduled s (c ∷ cs) chosen
unfolding select_scheduled
select_scheduled-IsScheduled s c cs =
    let (v, k, m) = listed_channel s (c ∷ cs) c (inl refl) in
    let b = pick-Best (c.from_agent, v, k) (all_channels s (c ∷ cs)) m in
    (
      b.chosen,
      rw (scan_channels-pick s (length (c ∷ cs)) none (sort (c ∷ cs)), b.found),
      Best-IsScheduled s (c ∷ cs) b,
    )

-- Nothing is chosen only when there is no row.
pub select_scheduled-nil : (s : Strategy) → select_scheduled [] s ≡ none
unfolding select_scheduled
select_scheduled-nil s = refl

-- Whatever `select_scheduled` returns is scheduled.
pub IsScheduled-of_some :
    (s : Strategy) (cs : List Candidate) (chosen : ℕ)
    → select_scheduled cs s ≡ some chosen
    → IsScheduled s cs chosen
IsScheduled-of_some s [] chosen h = cc (select_scheduled-nil s)
IsScheduled-of_some s (c ∷ cs) chosen h =
    let (x, e, good) = select_scheduled-IsScheduled s c cs in
    subst (IsScheduled s (c ∷ cs)) (ground arith) good
