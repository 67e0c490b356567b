-- ===== src/Store/Reset/Whole.antt =====
-- What a DELETE does to the integrity of the table, and when the foreign key refuses it.
use tmux_tell.Common.{
  ℕ, ◌<◌, ◌+◌, String, Bool, true, false, Option, none, some, List, [], ◌∷◌, ◌≡◌, refl, sym, ◌∙◌,
  inl, inr, In, In-select_rows, arith, map, All, any_row, select_rows, count_rows, length, not,
  ◌&&◌, if_cases, Bool-cases, eq_refl, subst,
}
use tmux_tell.Names.{canonical_name}
use tmux_tell.Store.Tables.{Message, Store, foreign_key, err, State}
use tmux_tell.Store.Insert.{has_public_id}
use tmux_tell.Store.Integrity.{Key, key, has_key, IsSound, Ascends, Distinct, Resolved, any_key}
use tmux_tell.Store.Reset.{
  survivors, names_doomed, replies_to_doomed, dangling, expired_in_states, delete_rows,
  delete_messages, delete_messages_before, delete_stranded_drafts_before,
}
use tmux_tell.Store.History.{Sweep, sweep}

module _ (p : Message → Bool) where
  All-select_rows :
      (P : Key → Type 0) (ms : List Message)
      → All P (map key ms)
      → All P (map key (select_rows p ms))
  All-select_rows P [] h = tt
  All-select_rows P (m ∷ ms) (q, h) =
      if_cases (λ (l : List Message). All P (map key l)) (p m) (λ _. (q, All-select_rows P ms h))
        (λ _. All-select_rows P ms h)

  pub Ascends-select_rows :
      (ms : List Message) → Ascends (map key ms) → Ascends (map key (select_rows p ms))
  Ascends-select_rows [] h = tt
  Ascends-select_rows (m ∷ ms) (q, h) =
      if_cases (λ (l : List Message). Ascends (map key l)) (p m)
        (λ _. (All-select_rows (λ k. m.id < k.id) ms q, Ascends-select_rows ms h))
        (λ _. Ascends-select_rows ms h)

  fresh-select_rows :
      (i : String) (ms : List Message)
      → any_row (has_key i) (map key ms) ≡ false
      → any_row (has_key i) (map key (select_rows p ms)) ≡ false
  fresh-select_rows i [] h = refl
  fresh-select_rows i (m ∷ ms) h =
      let rest = fresh-select_rows i ms (ground arith) in
      if_cases (λ (l : List Message). any_row (has_key i) (map key l) ≡ false) (p m)
        (λ _. ground arith) (λ _. rest)

  Distinct-select_rows :
      (ms : List Message) → Distinct (map key ms) → Distinct (map key (select_rows p ms))
  Distinct-select_rows [] h = tt
  Distinct-select_rows (m ∷ ms) (q, h) =
      if_cases (λ (l : List Message). Distinct (map key l)) (p m)
        (λ _. (fresh-select_rows m.public_id ms q, Distinct-select_rows ms h))
        (λ _. Distinct-select_rows ms h)

  -- A row that is named and not doomed is among the rest.
  named-survives :
      (i : String) (ms : List Message)
      → any_row (has_public_id i) ms ≡ true
      → any_row (λ d. not (p d) && has_public_id i d) ms ≡ false
      → any_row (has_public_id i) (select_rows p ms) ≡ true
  named-survives i [] h f = absurd (ground arith)
  named-survives i (m ∷ ms) h f = ground (arith, named-survives i ms)

count_rows-not :
    (p : Message → Bool) (ms : List Message)
    → count_rows p ms + length (select_rows (λ m. not (p m)) ms) ≡ length ms
count_rows-not p [] = refl
count_rows-not p (m ∷ ms) = ground (arith, count_rows-not p ms)

not-not-any :
    (i : String) (doomed : Message → Bool) (ms : List Message)
    → any_row (λ d. not (not (doomed d)) && has_public_id i d) ms
      ≡ any_row (λ d. doomed d && has_public_id i d) ms
not-not-any i doomed [] = refl
not-not-any i doomed (m ∷ ms) = ground (arith, not-not-any i doomed ms)

module _ (doomed : Message → Bool) (s : Store) where
  reply-survives :
      (m : Message) (r : Option String)
      → m.reply_to ≡ r
      → replies_to_doomed doomed s m ≡ false
      → Resolved (map key s.messages) r
      → Resolved (map key (survivors doomed s)) r
  reply-survives m none e f h = tt
  reply-survives m (some r) e f h =
      any_key r (survivors doomed s)
      ∙ named-survives (λ d. not (doomed d)) r s.messages (sym (any_key r s.messages) ∙ h)
          (not-not-any r doomed s.messages
            ∙ subst (λ (o : Option String). names_doomed doomed s o ≡ false) e f)

  replies-survive :
      (rs : List Message)
      → any_row (replies_to_doomed doomed s) rs ≡ false
      → All (λ (k : Key). Resolved (map key s.messages) k.reply_to) (map key rs)
      → All (λ (k : Key). Resolved (map key (survivors doomed s)) k.reply_to) (map key rs)
  replies-survive [] f h = tt
  replies-survive (m ∷ rs) f (p, h) =
      (reply-survives m m.reply_to refl (ground arith) p, replies-survive rs (ground arith) h)

  survivors-IsSound :
      IsSound s → dangling doomed s ≡ false → IsSound (record s { messages = survivors doomed s })
  survivors-IsSound h f = record {
    below = All-select_rows (λ m. not (doomed m)) (λ k. k.id < s.next_id) s.messages h.below;
    ascends = Ascends-select_rows (λ m. not (doomed m)) s.messages h.ascends;
    distinct = Distinct-select_rows (λ m. not (doomed m)) s.messages h.distinct;
    replies = replies-survive (survivors doomed s) f (
        All-select_rows (λ m. not (doomed m)) (λ k. Resolved (map key s.messages) k.reply_to)
          s.messages h.replies);
  }

  pub delete_rows-IsSound : IsSound s → IsSound (delete_rows doomed s).1
  unfolding delete_rows
  delete_rows-IsSound h = elim (Bool-cases (dangling doomed s)) [
    | inl d ↦ rw d h
    | inr f ↦ rw f (survivors-IsSound h f)
  ]

-- Each DELETE of messages keeps a sound store sound: in particular every reply that is left is to a
-- row that is left.
pub sweep-IsSound : (w : Sweep) (s : Store) → IsSound s → IsSound (sweep w s)
unfolding sweep delete_messages delete_messages_before delete_stranded_drafts_before
sweep-IsSound (Sweep.in_states to []) s h = h
sweep-IsSound (Sweep.in_states to (st ∷ states)) s h = delete_rows-IsSound _ s h
sweep-IsSound (Sweep.expired to none states) s h = h
sweep-IsSound (Sweep.expired to (some n) []) s h = h
sweep-IsSound (Sweep.expired to (some n) (st ∷ states)) s h = delete_rows-IsSound _ s h
sweep-IsSound (Sweep.expired_drafts to none) s h = h
sweep-IsSound (Sweep.expired_drafts to (some n)) s h = delete_rows-IsSound _ s h

any_row-In :
    (p : Message → Bool) (ms : List Message) (m : Message)
    → In m ms
    → p m ≡ true
    → any_row p ms ≡ true
any_row-In p [] m i h = absurd i
any_row-In p (x ∷ ms) m (inl e) h = rw (sym e, h) refl
any_row-In p (x ∷ ms) m (inr i) h = ground (arith, any_row-In p ms m i h)

-- Where a row that a DELETE selects has a reply that it does not select, it takes no row at all.
delete_rows-blocked :
    (doomed : Message → Bool) (s : Store) (d m : Message)
    → In d s.messages
    → doomed d ≡ true
    → In m s.messages
    → doomed m ≡ false
    → m.reply_to ≡ some d.public_id
    → delete_rows doomed s ≡ (err foreign_key, s)
unfolding delete_rows
delete_rows-blocked doomed s d m i x j y e =
    let named =
      any_row-In (λ r. doomed r && has_public_id d.public_id r) s.messages d i
        (ground (arith, eq_refl d.public_id)) in
    let bad =
      any_row-In (replies_to_doomed doomed s) (survivors doomed s) m
        (In-select_rows (λ r. not (doomed r)) s.messages m j (rw y refl)) (rw e named) in
    rw bad refl

-- The retention sweep takes no row at all while an expired row has a reply that is not expired, or
-- in another state, or to an agent outside the sweep.
pub delete_messages_before-blocked :
    (to : String) (cutoff : ℕ) (st : State) (states : List State) (s : Store) (d m : Message)
    → In d s.messages
    → expired_in_states (canonical_name to) cutoff (st ∷ states) d ≡ true
    → In m s.messages
    → expired_in_states (canonical_name to) cutoff (st ∷ states) m ≡ false
    → m.reply_to ≡ some d.public_id
    → delete_messages_before to (some cutoff) (st ∷ states) s ≡ (err foreign_key, s)
unfolding delete_messages_before
delete_messages_before-blocked to cutoff st states s d m i x j y e =
    delete_rows-blocked (expired_in_states (canonical_name to) cutoff (st ∷ states)) s d m i x j y e
