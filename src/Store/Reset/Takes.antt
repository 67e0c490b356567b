-- ===== src/Store/Reset/Takes.antt =====
-- Which rows a DELETE of messages takes.
use tmux_tell.Common.{
  ℕ, ◌<◌, String, Bool, true, false, Option, none, some, List, [], ◌∷◌, ◌≡◌, ◌⊎◌, refl, sym, ap,
  ◌∙◌, inl, inr, In, In-select_rows, select_rows-In, arith, All, any_row, select_rows, Bool-cases,
  eq_iff, if_cases, not, ◌&&◌, str_eq,
}
use tmux_tell.Names.{canonical_name}
use tmux_tell.Store.Tables.{
  State, Kind, same_state, same_kind, Message, Store, Result, state_code, kind_code,
}
use tmux_tell.Store.Evolution.{same_state-eq}
use tmux_tell.Store.Insert.{has_public_id}
use tmux_tell.Store.Integrity.{IsSound}
use tmux_tell.Store.Reset.{
  survivors, names_doomed, replies_to_doomed, dangling, expired_in_states, expired_draft, in_states,
  in_scope, state_in, delete_rows, delete_messages, delete_messages_before,
  delete_stranded_drafts_before,
}
use tmux_tell.Store.Reset.Whole.{delete_rows-IsSound}
use tmux_tell.Store.History.{Sweep, sweep}

-- The agent that the sweep is limited to, if it names one.
abbrev pub Scope : String → Message → Type 0
Scope to m = (canonical_name to ≡ "") ⊎ (m.to_agent ≡ canonical_name to)

-- The rows that a sweep is to take: by state; by state, if they are older than the cutoff; or the
-- stranded drafts older than the cutoff. Without a cutoff, where one is due, none.
abbrev pub Chosen : Sweep → Message → Type 0
Chosen (Sweep.in_states to states) m = In m.state states × Scope to m
Chosen (Sweep.expired to none states) m = ⊥
Chosen (Sweep.expired to (some n) states) m = (m.created_at < n) × In m.state states × Scope to m
Chosen (Sweep.expired_drafts to none) m = ⊥
Chosen (Sweep.expired_drafts to (some n)) m =
    (m.kind ≡ Kind.stranded_draft) × (m.created_at < n) × Scope to m

-- A row of the class has a reply outside it.
pub record IsBlocked (C : Message → Type 0) (ms : List Message) : Type 0 where
  pub parent : Message
  pub parent_in : In parent ms
  pub parent_chosen : C parent
  pub reply : Message
  pub reply_in : In reply ms
  pub reply_left : ¬ C reply
  pub names_parent : reply.reply_to ≡ some parent.public_id

-- What becomes of a row: it stays, not being of the class, or is of the class and goes; or nothing
-- happens, because a row of the class has a reply outside it.
abbrev pub Takes : (Message → Type 0) → Store → Store → Message → Type 0
Takes C s t m =
    (In m t.messages × (¬ C m)) ⊎ (C m × (¬ In m t.messages)) ⊎ ((t ≡ s) × IsBlocked C s.messages)

record Found (p : Message → Bool) (ms : List Message) : Type 0 where
  row : Message
  row_in : In row ms
  passes : p row ≡ true

any_row-Found : (p : Message → Bool) (ms : List Message) → any_row p ms ≡ true → Found p ms
any_row-Found p [] h = absurd (ground arith)
any_row-Found p (m ∷ ms) h = elim (Bool-cases (p m)) [
  | inl t ↦ record { row = m; row_in = inl refl; passes = t }
  | inr f ↦
      let r = any_row-Found p ms (ground arith) in
      record { row = r.row; row_in = inr r.row_in; passes = r.passes }
]

select_rows-passes :
    (p : Message → Bool) (ms : List Message) (m : Message) → In m (select_rows p ms) → p m ≡ true
select_rows-passes p [] m i = absurd i
select_rows-passes p (x ∷ ms) m i = elim (Bool-cases (p x)) [
  | inl t ↦ elim (rw t at i) [ inl e ↦ ap p e ∙ t | inr j ↦ select_rows-passes p ms m j ]
  | inr f ↦ select_rows-passes p ms m (rw f at i)
]

All-from_In : (xs ys : List Message) → ((m : Message) → In m xs → In m ys) → All (λ m. In m ys) xs
All-from_In [] ys h = tt
All-from_In (x ∷ xs) ys h = (h x (inl refl), All-from_In xs ys (λ m i. h m (inr i)))

module _ (doomed : Message → Bool) (C : Message → Type 0) (s : Store)
    (is : (m : Message) → doomed m ≡ true → C m) (of : (m : Message) → C m → doomed m ≡ true) where
  reply_blocks :
      (r : Message) (o : Option String)
      → r.reply_to ≡ o
      → In r s.messages
      → doomed r ≡ false
      → names_doomed doomed s o ≡ true
      → IsBlocked C s.messages
  reply_blocks r none e i f h = absurd (ground arith)
  reply_blocks r (some x) e i f h =
      let d = any_row-Found (λ d. doomed d && has_public_id x d) s.messages h in
      let b = d.passes in
      record {
        parent = d.row;
        parent_in = d.row_in;
        parent_chosen = is d.row (ground arith);
        reply = r;
        reply_in = i;
        reply_left = λ c. absurd (let y = of r c in ground arith);
        names_parent =
            e ∙ ap (λ (w : String). some w) (sym (ground (arith, eq_iff d.row.public_id x)));
      }

  delete_rows-Takes : (m : Message) → In m s.messages → Takes C s (delete_rows doomed s).1 m
  unfolding delete_rows
  delete_rows-Takes m i = elim (Bool-cases (dangling doomed s)) [
    | inl d ↦
        let r = any_row-Found (replies_to_doomed doomed s) (survivors doomed s) d in
        let j = select_rows-In (λ x. not (doomed x)) s.messages r.row r.row_in in
        let f = select_rows-passes (λ x. not (doomed x)) s.messages r.row r.row_in in
        rw d (inr (inr (refl, reply_blocks r.row r.row.reply_to refl j (ground arith) r.passes)))
    | inr f ↦ rw f (free (Bool-cases (doomed m)))
  ]
    where
      free :
          (doomed m ≡ true) ⊎ (doomed m ≡ false)
          → Takes C s (record s { messages = survivors doomed s }) m
      free (inl t) = inr (
          inl (
            is m t,
            λ j.
                let n = select_rows-passes (λ x. not (doomed x)) s.messages m j in
                absurd (ground arith),
          ))
      free (inr n) = inl (
        In-select_rows (λ x. not (doomed x)) s.messages m i (rw n refl),
        λ c. let y = of m c in absurd (ground arith),
      )

  delete_rows-subset : All (λ m. In m s.messages) (delete_rows doomed s).1.messages
  unfolding delete_rows
  delete_rows-subset =
      if_cases (λ (x : Result ℕ × Store). All (λ m. In m s.messages) x.1.messages)
        (dangling doomed s) (λ _. All-from_In s.messages s.messages (λ m i. i))
        (λ _.
          All-from_In (survivors doomed s) s.messages
            (select_rows-In (λ x. not (doomed x)) s.messages))

-- The tests of the statements, read as conditions.
in_scope-Scope : (to : String) (m : Message) → in_scope (canonical_name to) m ≡ true → Scope to m
in_scope-Scope to m h = elim (Bool-cases (str_eq (canonical_name to) "")) [
  | inl t ↦ inl ((eq_iff (canonical_name to) "").0 t)
  | inr f ↦ inr ((eq_iff m.to_agent (canonical_name to)).0 (ground arith))
]

Scope-in_scope : (to : String) (m : Message) → Scope to m → in_scope (canonical_name to) m ≡ true
Scope-in_scope to m (inl e) = let h = (eq_iff (canonical_name to) "").1 e in ground arith
Scope-in_scope to m (inr e) = let h = (eq_iff m.to_agent (canonical_name to)).1 e in ground arith

state_in-In : (states : List State) (st : State) → state_in states st ≡ true → In st states
state_in-In [] st h = absurd (ground arith)
state_in-In (x ∷ states) st h = elim (Bool-cases (same_state st x)) [
  | inl t ↦ inl (same_state-eq st x t)
  | inr f ↦ inr (state_in-In states st (ground arith))
]

In-state_in : (states : List State) (st : State) → In st states → state_in states st ≡ true
In-state_in [] st i = absurd i
In-state_in (x ∷ states) st (inl e) = let q = ap state_code e in ground arith
In-state_in (x ∷ states) st (inr i) = let h = In-state_in states st i in ground arith

is_draft : (k : Kind) → same_kind k Kind.stranded_draft ≡ true → k ≡ Kind.stranded_draft
is_draft Kind.stranded_draft h = refl
is_draft Kind.message h = absurd (ground arith)
is_draft Kind.control h = absurd (ground arith)
is_draft Kind.delivery_failure_notice h = absurd (ground arith)
is_draft Kind.ping h = absurd (ground arith)
is_draft Kind.dedupe_notice h = absurd (ground arith)
is_draft Kind.backlog_announce h = absurd (ground arith)
is_draft Kind.stuck_chamber_notice h = absurd (ground arith)
is_draft Kind.dead_mailman_notice h = absurd (ground arith)

-- After a sweep of any kind, from a sound store.
pub record Swept (w : Sweep) (s t : Store) (m : Message) : Type 0 where
  pub taken : Takes (Chosen w) s t m
  pub subset : All (λ (x : Message). In x s.messages) t.messages
  pub sound : IsSound t

unswept :
    (w : Sweep) (s : Store) (m : Message)
    → IsSound s
    → In m s.messages
    → ¬ Chosen w m
    → Swept w s s m
unswept w s m sound i spared = record {
  taken = inl (i, spared);
  subset = All-from_In s.messages s.messages (λ x j. j);
  sound = sound;
}

deleted :
    (w : Sweep) (doomed : Message → Bool) (s : Store) (m : Message)
    → IsSound s
    → In m s.messages
    → ((x : Message) → doomed x ≡ true → Chosen w x)
    → ((x : Message) → Chosen w x → doomed x ≡ true)
    → Swept w s (delete_rows doomed s).1 m
deleted w doomed s m sound i is of = record {
  taken = delete_rows-Takes doomed (Chosen w) s is of m i;
  subset = delete_rows-subset doomed (Chosen w) s is of;
  sound = delete_rows-IsSound doomed s sound;
}

-- Each sweep of messages from a sound store deletes each row that it is to take, by its state, its age,
-- its kind and the agent in scope, and keeps each other row; or it deletes nothing at all, because a row
-- that it is to take has a reply that it is not to take. It adds no row, and the store stays sound.
pub sweep-Swept :
    (w : Sweep) (s : Store) (m : Message) → IsSound s → In m s.messages → Swept w s (sweep w s) m
unfolding sweep delete_messages delete_messages_before delete_stranded_drafts_before
sweep-Swept (Sweep.in_states to []) s m h i = unswept _ s m h i (λ c. c.0)
sweep-Swept (Sweep.in_states to (st ∷ states)) s m h i =
    deleted (Sweep.in_states to (st ∷ states)) (in_states (canonical_name to) (st ∷ states)) s m h i
      (λ x d.
        (state_in-In (st ∷ states) x.state (ground arith), in_scope-Scope to x (ground arith)))
      (λ x c.
        let a = In-state_in (st ∷ states) x.state c.0 in
        let b = Scope-in_scope to x c.1 in ground arith)
sweep-Swept (Sweep.expired to none states) s m h i = unswept _ s m h i (λ c. c)
sweep-Swept (Sweep.expired to (some n) []) s m h i = unswept _ s m h i (λ c. c.1)
sweep-Swept (Sweep.expired to (some n) (st ∷ states)) s m h i =
    deleted (Sweep.expired to (some n) (st ∷ states))
      (expired_in_states (canonical_name to) n (st ∷ states)) s m h i
      (λ x d. (
        ground arith,
        state_in-In (st ∷ states) x.state (ground arith),
        in_scope-Scope to x (ground arith),
      ))
      (λ x c.
        let l = c.0 in
        let a = In-state_in (st ∷ states) x.state c.1 in
        let b = Scope-in_scope to x c.2 in ground arith)
sweep-Swept (Sweep.expired_drafts to none) s m h i = unswept _ s m h i (λ c. c)
sweep-Swept (Sweep.expired_drafts to (some n)) s m h i =
    deleted (Sweep.expired_drafts to (some n)) (expired_draft (canonical_name to) n) s m h i
      (λ x d. (is_draft x.kind (ground arith), ground arith, in_scope-Scope to x (ground arith)))
      (λ x c.
        let l = c.1 in let k = ap kind_code c.0 in let b = Scope-in_scope to x c.2 in ground arith)
