-- ===== src/Store/Reap/Spares.antt =====
-- What a reap takes, and what it must not take.
use tmux_tell.Common.{
  ℕ, String, Bool, true, false, List, [], ◌∷◌, ◌≡◌, refl, sym, ap, ◌∙◌, inl, inr, In, arith, length,
  any_row, select_rows, update_rows, count_rows-cleared, count_rows-eq-length, if_cases,
}
use tmux_tell.Store.Tables.{Reason, Message, Store}
use tmux_tell.Store.Deliver.{as_failed}
use tmux_tell.Store.Reap.{reaches_pane, reapable, list_reapable_undeliverable, reap_undeliverable}

In-update_rows :
    (p : Message → Bool) (f : Message → Message) (ms : List Message) (m : Message)
    → In m ms
    → p m ≡ false
    → In m (update_rows p f ms)
In-update_rows p f [] m i h = absurd i
In-update_rows p f (x ∷ ms) m (inl e) h =
    inl (if_cases (λ n. m ≡ n) (p x) (λ t. absurd (ground (arith, ap p e))) (λ _. e))
In-update_rows p f (x ∷ ms) m (inr i) h = inr (In-update_rows p f ms m i h)

-- A reap never touches a message whose recipient has an agent row with a live pane.
pub reap_undeliverable-spares :
    (agent : String) (cutoff : ℕ) (reason : Reason) (now : ℕ) (s : Store) (m : Message)
    → In m s.messages
    → any_row (reaches_pane m.to_agent) s.agents ≡ true
    → In m (reap_undeliverable agent cutoff reason now s).1.messages
unfolding reap_undeliverable
reap_undeliverable-spares agent cutoff reason now s m i live =
    In-update_rows (reapable s.agents agent cutoff) (as_failed reason now) s.messages m i
      (ground arith)

pub record Reaps (agent : String) (cutoff : ℕ) (reason : Reason) (now : ℕ) (s : Store)
    : Type 0 where
  pub listed :
      (reap_undeliverable agent cutoff reason now s).0
      ≡ length (list_reapable_undeliverable agent cutoff s)
  pub none_left :
      list_reapable_undeliverable agent cutoff (reap_undeliverable agent cutoff reason now s).1 ≡ []

empty_of_length : {A : Type 0} (xs : List A) → length xs ≡ 0 → xs ≡ []
empty_of_length [] h = refl
empty_of_length (x ∷ xs) h = absurd (omega arith)

-- A reap takes as many rows as the dry run lists, and a dry run after it with the same scope and
-- cutoff lists none.
pub reap_undeliverable-Reaps :
    (agent : String) (cutoff : ℕ) (reason : Reason) (now : ℕ) (s : Store)
    → Reaps agent cutoff reason now s
unfolding reap_undeliverable list_reapable_undeliverable
reap_undeliverable-Reaps agent cutoff reason now s =
    let p = reapable s.agents agent cutoff in
    let after = update_rows p (as_failed reason now) s.messages in
    record {
      listed = count_rows-eq-length p s.messages;
      none_left = empty_of_length (select_rows p after) (
          sym (count_rows-eq-length p after)
          ∙ count_rows-cleared p (as_failed reason now) s.messages (λ m h. ground arith));
    }
