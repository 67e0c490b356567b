-- ===== src/Store/Schedule/Channels.antt =====
-- The two loops of `selectScheduled` seen as a list of channels: sender, weight and head.
pub mod Spans
use tmux_tell.Common.{
  ℕ, zero, suc, ◌+◌, ◌≤◌, max, String, Bool-cases, str_eq, eq_iff, eq_refl, List, [], ◌∷◌, Option,
  ◌≡◌, refl, ◌≢◌, sym, ap, ◌∙◌, ◌⊎◌, inl, inr, arith, subst, length, In, All-In, str_lt,
  str_lt_irrefl, false,
}
use native.Mathlib.Nat.{le_refl}
use tmux_tell.Store.Schedule.{Candidate, Strategy, channel_weight, better, scan_channels}
use tmux_tell.Store.Schedule.Order.{IsSorted, Precedes}
use Spans.{
  of_sender, except, peak, channel_weight-eq, except-IsSorted, length-except_head, In-except,
  In-of_except, of_sender-except, sorted_bound,
}

abbrev pub Channel : Type 0
Channel = String × ℕ × ℕ

-- What the outer loop compares, in order.
pub channels : Strategy → ℕ → List Candidate → List Channel
channels s zero cs = []
channels s (suc n) [] = []
channels s (suc n) (c ∷ cs) =
    let (weight, rest) = channel_weight s c.from_agent 0 0 (c ∷ cs) in
    (c.from_agent, weight, c.id) ∷ channels s n rest

unfoldable pub pick : Option (ℕ × ℕ) → List Channel → Option (ℕ × ℕ)
pick best [] = best
pick best ((sender, weight, head) ∷ rest) = pick (better best weight head) rest

pub scan_channels-pick :
    (s : Strategy) (n : ℕ) (best : Option (ℕ × ℕ)) (cs : List Candidate)
    → scan_channels s n best cs ≡ pick best (channels s n cs)
unfolding scan_channels channels pick
scan_channels-pick s zero best cs = refl
scan_channels-pick s (suc n) best [] = refl
scan_channels-pick s (suc n) best (c ∷ cs) =
    let r : ℕ × List Candidate = channel_weight s c.from_agent 0 0 (c ∷ cs) in
    scan_channels-pick s n (better best r.0 c.id) r.1

-- A round of the outer loop takes all rows of the first row's sender.
round-eq :
    (s : Strategy) (c : Candidate) (cs : List Candidate)
    → IsSorted (c ∷ cs)
    → channel_weight s c.from_agent 0 0 (c ∷ cs)
      ≡ (peak s 0 (of_sender c.from_agent (c ∷ cs)), except c.from_agent (c ∷ cs))
round-eq s c cs o =
    channel_weight-eq s c.from_agent 0 0 (c ∷ cs) o (sorted_bound c cs o)
    ∙ ap (λ (w : ℕ). (w, except c.from_agent (c ∷ cs))) (omega arith)

-- What a listed channel says of the rows: its weight, its head, and that the head is oldest.
pub record IsChannel (s : Strategy) (cs : List Candidate) (ch : Channel) : Type 0 where
  pub weight_eq : ch.1 ≡ peak s 0 (of_sender ch.0 cs)
  pub head : Candidate
  pub head_in : In head cs
  pub head_from : head.from_agent ≡ ch.0
  pub head_id : head.id ≡ ch.2
  pub oldest : (d : Candidate) → In d cs → d.from_agent ≡ ch.0 → ch.2 ≤ d.id

-- Of sorted rows the first is the oldest of its sender.
first_oldest :
    (c d : Candidate) (cs : List Candidate)
    → IsSorted (c ∷ cs)
    → In d (c ∷ cs)
    → d.from_agent ≡ c.from_agent
    → c.id ≤ d.id
first_oldest c d cs o (inl same) e = rw same (le_refl c.id)
first_oldest c d cs o (inr m) e = elim (All-In (Precedes c) cs d o.0 m) [
  | inl lt ↦ cc (str_lt_irrefl c.from_agent, lt, ap (str_lt c.from_agent) e)
  | inr (_, le) ↦ le
]

IsChannel-of_except :
    (s : Strategy) (f : String) (cs : List Candidate) (ch : Channel)
    → IsChannel s (except f cs) ch
    → IsChannel s cs ch
IsChannel-of_except s f cs ch h =
    let (inside, other) = In-of_except f h.head cs h.head_in in
    let ne : str_eq ch.0 f ≡ false = rw (← h.head_from) other in
    record {
      weight_eq = h.weight_eq ∙ ap (peak s 0) (of_sender-except f ch.0 cs ne);
      head = h.head;
      head_in = inside;
      head_from = h.head_from;
      head_id = h.head_id;
      oldest = λ d i e. h.oldest d (In-except f d cs i (rw e ne)) e;
    }

pub channels-IsChannel :
    (s : Strategy) (n : ℕ) (cs : List Candidate) (ch : Channel)
    → IsSorted cs
    → In ch (channels s n cs)
    → IsChannel s cs ch
unfolding channels
channels-IsChannel s zero cs ch o i = absurd i
channels-IsChannel s (suc n) [] ch o i = absurd i
channels-IsChannel s (suc n) (c ∷ cs) ch o i =
    elim (subst (λ (r : ℕ × List Candidate). In ch ((c.from_agent, r.0, c.id) ∷ channels s n r.1))
      (round-eq s c cs o) i) [
        | inl e ↦ rw e (record {
          weight_eq = refl;
          head = c;
          head_in = inl refl;
          head_from = refl;
          head_id = refl;
          oldest = λ d m same. first_oldest c d cs o m same;
        })
        | inr m ↦ IsChannel-of_except s c.from_agent (c ∷ cs) ch (
            channels-IsChannel s n (except c.from_agent (c ∷ cs)) ch
              (except-IsSorted c.from_agent (c ∷ cs) o) m)
      ]

-- Every sender has a channel, if the fuel is enough.
pub channels_complete :
    (s : Strategy) (n : ℕ) (cs : List Candidate) (d : Candidate)
    → IsSorted cs
    → length cs ≤ n
    → In d cs
    → (weight : ℕ) × (head : ℕ) × In (d.from_agent, weight, head) (channels s n cs)
unfolding channels
channels_complete s zero [] d o l i = absurd i
channels_complete s zero (c ∷ cs) d o l i = absurd (omega arith)
channels_complete s (suc n) [] d o l i = absurd i
channels_complete s (suc n) (c ∷ cs) d o l i =
    subst
      (λ (r : ℕ × List Candidate).
        (weight : ℕ) × (head : ℕ) × In (d.from_agent, weight, head)
          ((c.from_agent, r.0, c.id) ∷ channels s n r.1))
      (sym (round-eq s c cs o))
      (elim (Bool-cases (str_eq d.from_agent c.from_agent)) [
        | inl e ↦
            (peak s 0 (of_sender c.from_agent (c ∷ cs)), c.id, inl (rw ((eq_iff _ _).0 e) refl))
        | inr ne ↦
            let (weight, head, m) =
              channels_complete s n (except c.from_agent (c ∷ cs)) d
                (except-IsSorted c.from_agent (c ∷ cs) o) (omega (arith, length-except_head c cs))
                (In-except c.from_agent d (c ∷ cs) i ne) in
            (weight, head, inr m)
      ])
