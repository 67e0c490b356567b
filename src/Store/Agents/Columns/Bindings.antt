-- ===== src/Store/Agents/Columns/Bindings.antt =====
-- No setter of a column moves a pane, renames an agent or touches a message.
use tmux_tell.Common.{
  ℕ, String, Bool, Option, List, [], ◌∷◌, ◌≡◌, refl, ap₂, str_eq, if_cases, map, update_rows,
  count_rows, ◌==◌,
}
use tmux_tell.Names.{canonical_name}
use tmux_tell.Store.Tables.{Agent, Store, Result}
use tmux_tell.Store.Insert.{named}
use tmux_tell.Store.Agents.{update_agent, set_stuck, clear_stuck, set_stuck_reason}
use tmux_tell.Store.Agents.Columns.{
  set_display_name, set_session_id, set_delivery_mode, set_attention_state, set_metabolism,
  clear_metabolism_if_pending, set_respawn_after_shrinks, set_relaunch_cmd, set_auto_restart,
  set_provider, valid_delivery_mode, valid_attention_state, valid_metabolism,
}

-- A call of a setter, at its time.
pub data ColumnCall : Type 0 where
  display_name session_id attention_state relaunch_cmd provider stuck : String → ColumnCall
  delivery_mode metabolism : String → ℕ → ColumnCall
  respawn_after_shrinks : ℕ → ColumnCall
  auto_restart : Bool → ColumnCall
  metabolism_read unstuck : ColumnCall

abbrev pub perform_column : String → Store → ColumnCall → Store
perform_column n s (ColumnCall.display_name v) = (set_display_name n v s).1
perform_column n s (ColumnCall.session_id v) = (set_session_id n v s).1
perform_column n s (ColumnCall.attention_state v) = (set_attention_state n v s).1
perform_column n s (ColumnCall.relaunch_cmd v) = (set_relaunch_cmd n v s).1
perform_column n s (ColumnCall.provider v) = set_provider n v s
perform_column n s (ColumnCall.stuck v) = (set_stuck n v s).1
perform_column n s (ColumnCall.delivery_mode v now) = (set_delivery_mode n v now s).1
perform_column n s (ColumnCall.metabolism v now) = (set_metabolism n v now s).1
perform_column n s (ColumnCall.respawn_after_shrinks k) = (set_respawn_after_shrinks n k s).1
perform_column n s (ColumnCall.auto_restart b) = (set_auto_restart n b s).1
perform_column n s ColumnCall.metabolism_read = clear_metabolism_if_pending n s
perform_column n s ColumnCall.unstuck = (clear_stuck n s).1

abbrev pub binding : Agent → String × Option String
binding a = (a.name, a.pane_id)

-- The same agents on the same panes, and the same messages.
abbrev pub SameBindings : Store → Store → Type 0
SameBindings s t = (map binding t.agents ≡ map binding s.agents) × (t.messages ≡ s.messages)

update-binding :
    (p : Agent → Bool) (f : Agent → Agent) (xs : List Agent)
    → ((a : Agent) → binding (f a) ≡ binding a)
    → map binding (update_rows p f xs) ≡ map binding xs
update-binding p f [] h = refl
update-binding p f (x ∷ xs) h =
    ap₂ (λ (b : String × Option String) (bs : List (String × Option String)). b ∷ bs)
      (if_cases (λ (a : Agent). binding a ≡ binding x) (p x) (λ _. h x) (λ _. refl))
      (update-binding p f xs h)

update_agent-SameBindings :
    (n : String) (f : Agent → Agent) (s : Store)
    → ((a : Agent) → binding (f a) ≡ binding a)
    → SameBindings s (update_agent n f s).1
update_agent-SameBindings n f s h =
    if_cases (λ (x : Result (Unit {0}) × Store). SameBindings s x.1)
      (count_rows (named (canonical_name n)) s.agents == 0) (λ _. (refl, refl))
      (λ _. (update-binding (named (canonical_name n)) f s.agents h, refl))

-- Whatever column of whatever agent is set to whatever value, valid or refused, the agents keep their
-- names and panes, and the messages stay.
pub perform_column-SameBindings :
    (n : String) (s : Store) (c : ColumnCall) → SameBindings s (perform_column n s c)
unfolding set_display_name set_session_id set_delivery_mode set_attention_state set_metabolism
    clear_metabolism_if_pending set_respawn_after_shrinks set_relaunch_cmd set_auto_restart
    set_provider set_stuck set_stuck_reason clear_stuck
perform_column-SameBindings n s (ColumnCall.display_name v) =
    update_agent-SameBindings n _ s (λ a. refl)
perform_column-SameBindings n s (ColumnCall.session_id v) =
    update_agent-SameBindings n _ s (λ a. refl)
perform_column-SameBindings n s (ColumnCall.attention_state v) =
    if_cases (λ (x : Result (Unit {0}) × Store). SameBindings s x.1) (valid_attention_state v)
      (λ _. update_agent-SameBindings n _ s (λ a. refl)) (λ _. (refl, refl))
perform_column-SameBindings n s (ColumnCall.relaunch_cmd v) =
    update_agent-SameBindings n _ s (λ a. refl)
perform_column-SameBindings n s (ColumnCall.provider v) =
    (update-binding (named (canonical_name n)) _ s.agents (λ a. refl), refl)
perform_column-SameBindings n s (ColumnCall.stuck v) =
    if_cases (λ (x : Result (Unit {0}) × Store). SameBindings s x.1) (str_eq v "")
      (λ _. (refl, refl)) (λ _. update_agent-SameBindings n _ s (λ a. refl))
perform_column-SameBindings n s (ColumnCall.delivery_mode v now) =
    if_cases (λ (x : Result (Unit {0}) × Store). SameBindings s x.1) (valid_delivery_mode v)
      (λ _. update_agent-SameBindings n _ s (λ a. refl)) (λ _. (refl, refl))
perform_column-SameBindings n s (ColumnCall.metabolism v now) =
    if_cases (λ (x : Result (Unit {0}) × Store). SameBindings s x.1) (valid_metabolism v)
      (λ _.
        if_cases (λ (x : Result (Unit {0}) × Store). SameBindings s x.1) (str_eq v "")
          (λ _. update_agent-SameBindings n _ s (λ a. refl))
          (λ _. update_agent-SameBindings n _ s (λ a. refl)))
      (λ _. (refl, refl))
perform_column-SameBindings n s (ColumnCall.respawn_after_shrinks k) =
    update_agent-SameBindings n _ s (λ a. refl)
perform_column-SameBindings n s (ColumnCall.auto_restart b) =
    update_agent-SameBindings n _ s (λ a. refl)
perform_column-SameBindings n s ColumnCall.metabolism_read =
    (update-binding _ _ s.agents (λ a. refl), refl)
perform_column-SameBindings n s ColumnCall.unstuck = update_agent-SameBindings n _ s (λ a. refl)
