-- ===== src/Store/Reset.antt =====
-- internal/store/reset.go: `DeleteMessages`, `DeleteMessagesBefore`, `DeleteStrandedDraftsBefore` and
-- `DeleteAgent`. The foreign key on `reply_to` has no ON DELETE action and is enforced, so a DELETE
-- that would leave a reply without its message is refused whole.
pub mod Whole
pub mod Takes
use tmux_tell.Common.{
  ℕ, String, Bool, true, false, Option, none, some, List, [], ◌∷◌, ◌&&◌, ◌||◌, not, ltb, ◌==◌,
  str_eq, if◌then◌else◌, select_rows, count_rows, any_row,
}
use tmux_tell.Names.{canonical_name}
use tmux_tell.Store.Tables.{
  State, Kind, same_state, same_kind, Message, Store, Error, foreign_key, cutoff_required,
  states_required, Result, ok, err,
}
use tmux_tell.Store.Insert.{has_public_id, named}

abbrev pub survivors : (Message → Bool) → Store → List Message
survivors doomed s = select_rows (λ m. not (doomed m)) s.messages

-- `reply_to` names a row that the DELETE takes away.
abbrev pub names_doomed : (Message → Bool) → Store → Option String → Bool
names_doomed doomed s none = false
names_doomed doomed s (some r) = any_row (λ d. doomed d && has_public_id r d) s.messages

abbrev pub replies_to_doomed : (Message → Bool) → Store → Message → Bool
replies_to_doomed doomed s m = names_doomed doomed s m.reply_to

abbrev pub dangling : (Message → Bool) → Store → Bool
dangling doomed s = any_row (replies_to_doomed doomed s) (survivors doomed s)

-- `DELETE FROM messages WHERE doomed`, with the number of rows deleted.
unfoldable pub delete_rows : (Message → Bool) → Store → Result ℕ × Store
delete_rows doomed s =
    if dangling doomed s
    then (err foreign_key, s)
    else (ok (count_rows doomed s.messages), record s { messages = survivors doomed s })

abbrev pub state_in : List State → State → Bool
state_in [] st = false
state_in (x ∷ xs) st = same_state st x || state_in xs st

-- `AND to_agent = ?` where an agent is named.
abbrev pub in_scope : String → Message → Bool
in_scope agent m = str_eq agent "" || str_eq m.to_agent agent

abbrev pub in_states : String → List State → Message → Bool
in_states agent states m = state_in states m.state && in_scope agent m

unfoldable pub delete_messages : String → List State → Store → Result ℕ × Store
unfolding delete_rows
delete_messages to [] s = (err states_required, s)
delete_messages to (st ∷ states) s = delete_rows (in_states (canonical_name to) (st ∷ states)) s

abbrev pub expired_in_states : String → ℕ → List State → Message → Bool
expired_in_states agent cutoff states m =
    ltb m.created_at cutoff && state_in states m.state && in_scope agent m

-- A cutoff that is the empty string is `none`.
unfoldable pub delete_messages_before : String → Option ℕ → List State → Store → Result ℕ × Store
unfolding delete_rows
delete_messages_before to none states s = (err cutoff_required, s)
delete_messages_before to (some cutoff) [] s = (err states_required, s)
delete_messages_before to (some cutoff) (st ∷ states) s =
    delete_rows (expired_in_states (canonical_name to) cutoff (st ∷ states)) s

abbrev pub expired_draft : String → ℕ → Message → Bool
expired_draft agent cutoff m =
    same_kind m.kind Kind.stranded_draft && ltb m.created_at cutoff && in_scope agent m

unfoldable pub delete_stranded_drafts_before : String → Option ℕ → Store → Result ℕ × Store
unfolding delete_rows
delete_stranded_drafts_before to none s = (err cutoff_required, s)
delete_stranded_drafts_before to (some cutoff) s =
    delete_rows (expired_draft (canonical_name to) cutoff) s

unfoldable pub delete_agent : String → Store → Bool × Store
delete_agent name s =
    let mine = named (canonical_name name) in
    (
      ltb 0 (count_rows mine s.agents),
      record s { agents = select_rows (λ a. not (mine a)) s.agents },
    )
