-- ===== src/Store/Evolution.antt =====
-- How a row may change: its text and addresses never, its state along the life of a message.
use tmux_tell.Common.{
  ℕ, Bool, true, false, List, [], ◌∷◌, ◌++◌, ◌≡◌, refl, ◌∙◌, arith, if_cases, update_rows, zero,
  suc, ==_iff, In, inl, inr, sym, ap,
}
use tmux_tell.Store.Tables.{State, state_code, same_state, is_state, Message}

-- No operation leaves these states.
abbrev pub is_terminal : State → Bool
is_terminal State.delivered = true
is_terminal State.failed = true
is_terminal State.acknowledged = true
is_terminal State.refused = true
is_terminal _ = false

-- A later state of the same message: a deferred row may be promoted, a queued one delivered, failed
-- or acknowledged, and one in flight may be queued again.
abbrev pub reaches : State → State → Bool
reaches State.deferred State.refused = false
reaches State.deferred b = true
reaches State.queued State.refused = false
reaches State.queued State.deferred = false
reaches State.queued b = true
reaches State.delivering State.refused = false
reaches State.delivering State.deferred = false
reaches State.delivering b = true
reaches a b = same_state a b

pub reaches_refl : (a : State) → reaches a a ≡ true
reaches_refl State.queued = refl
reaches_refl State.delivering = refl
reaches_refl State.delivered = refl
reaches_refl State.failed = refl
reaches_refl State.acknowledged = refl
reaches_refl State.deferred = refl
reaches_refl State.refused = refl

reaches_trans : (a b c : State) → reaches a b ≡ true → reaches b c ≡ true → reaches a c ≡ true
reaches_trans State.queued b c p q = ground arith
reaches_trans State.delivering b c p q = ground arith
reaches_trans State.delivered b c p q = ground arith
reaches_trans State.failed b c p q = ground arith
reaches_trans State.acknowledged b c p q = ground arith
reaches_trans State.deferred b c p q = ground arith
reaches_trans State.refused b c p q = ground arith

-- What stays, and how the state moved.
pub record RowStep (m n : Message) : Type 0 where
  pub id : n.id ≡ m.id
  pub public_id : n.public_id ≡ m.public_id
  pub from_agent : n.from_agent ≡ m.from_agent
  pub to_agent : n.to_agent ≡ m.to_agent
  pub body : n.body ≡ m.body
  pub reply_to : n.reply_to ≡ m.reply_to
  pub created_at : n.created_at ≡ m.created_at
  pub state : reaches m.state n.state ≡ true

RowStep-refl : (m : Message) → RowStep m m
RowStep-refl m = record {
  id = refl;
  public_id = refl;
  from_agent = refl;
  to_agent = refl;
  body = refl;
  reply_to = refl;
  created_at = refl;
  state = reaches_refl m.state;
}

RowStep-trans : {m n o : Message} → RowStep m n → RowStep n o → RowStep m o
RowStep-trans {m} {n} {o} p q = record {
  id = q.id ∙ p.id;
  public_id = q.public_id ∙ p.public_id;
  from_agent = q.from_agent ∙ p.from_agent;
  to_agent = q.to_agent ∙ p.to_agent;
  body = q.body ∙ p.body;
  reply_to = q.reply_to ∙ p.reply_to;
  created_at = q.created_at ∙ p.created_at;
  state = reaches_trans m.state n.state o.state p.state q.state;
}

-- Every row of the first table is, changed as above, at its place in the second; rows may follow.
abbrev pub Evolves : List Message → List Message → Type 0
Evolves [] ns = Unit
Evolves (m ∷ ms) [] = ⊥
Evolves (m ∷ ms) (n ∷ ns) = RowStep m n × Evolves ms ns

pub Evolves-refl : (ms : List Message) → Evolves ms ms
Evolves-refl [] = tt
Evolves-refl (m ∷ ms) = (RowStep-refl m, Evolves-refl ms)

pub Evolves-trans : (ms ns os : List Message) → Evolves ms ns → Evolves ns os → Evolves ms os
Evolves-trans [] ns os p q = tt
Evolves-trans (m ∷ ms) [] os p q = absurd p
Evolves-trans (m ∷ ms) (n ∷ ns) [] p q = absurd q
Evolves-trans (m ∷ ms) (n ∷ ns) (o ∷ os) (p, ps) (q, qs) =
    (RowStep-trans p q, Evolves-trans ms ns os ps qs)

pub Evolves-append : (ms ns : List Message) → Evolves ms (ms ++ ns)
Evolves-append [] ns = tt
Evolves-append (m ∷ ms) ns = (RowStep-refl m, Evolves-append ms ns)

-- An UPDATE evolves the table if it is a step on every row that it selects.
pub Evolves-update_rows :
    (p : Message → Bool) (f : Message → Message) (ms : List Message)
    → ((m : Message) → In m ms → p m ≡ true → RowStep m (f m))
    → Evolves ms (update_rows p f ms)
Evolves-update_rows p f [] step = tt
Evolves-update_rows p f (m ∷ ms) step = (
  if_cases (RowStep m) (p m) (step m (inl refl)) (λ _. RowStep-refl m),
  Evolves-update_rows p f ms (λ n i. step n (inr i)),
)

abbrev state_of : ℕ → State
state_of zero = State.queued
state_of (suc zero) = State.delivering
state_of (suc (suc zero)) = State.delivered
state_of (suc (suc (suc zero))) = State.failed
state_of (suc (suc (suc (suc zero)))) = State.acknowledged
state_of (suc (suc (suc (suc (suc zero))))) = State.deferred
state_of _ = State.refused

state_of_code : (a : State) → state_of (state_code a) ≡ a
state_of_code State.queued = refl
state_of_code State.delivering = refl
state_of_code State.delivered = refl
state_of_code State.failed = refl
state_of_code State.acknowledged = refl
state_of_code State.deferred = refl
state_of_code State.refused = refl

pub same_state-eq : (a b : State) → same_state a b ≡ true → a ≡ b
same_state-eq a b h =
    sym (state_of_code a)
    ∙ ap state_of (((==_iff (state_code a) (state_code b)).0) h)
    ∙ state_of_code b

-- A row that passes the state test moves as that state may.
pub reaches_from :
    (m : Message) (a b : State)
    → is_state a m ≡ true
    → reaches a b ≡ true
    → reaches m.state b ≡ true
reaches_from m a b h r = rw (same_state-eq m.state a h) r

-- A step that changes the state, and columns that are no part of the message.
pub RowStep-to :
    {m n : Message}
    → n.id ≡ m.id
    → n.public_id ≡ m.public_id
    → n.from_agent ≡ m.from_agent
    → n.to_agent ≡ m.to_agent
    → n.body ≡ m.body
    → n.reply_to ≡ m.reply_to
    → n.created_at ≡ m.created_at
    → reaches m.state n.state ≡ true
    → RowStep m n
RowStep-to i p f t b r c s = record {
  id = i;
  public_id = p;
  from_agent = f;
  to_agent = t;
  body = b;
  reply_to = r;
  created_at = c;
  state = s;
}
