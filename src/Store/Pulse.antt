-- ===== src/Store/Pulse.antt =====
-- internal/store/messages.go: the freshness query `RecipientOldestPendingAt`.
pub mod Oldest
use tmux_tell.Common.{
  ℕ, String, Bool, true, false, Option, none, some, List, [], ◌∷◌, ◌&&◌, ◌||◌, min, leb, str_eq,
  if◌then◌else◌, count_rows,
}
use tmux_tell.Names.{canonical_name}
use tmux_tell.Store.Tables.{State, Kind, same_kind, Message, Store, is_state}

-- `state IN (queued, delivering) AND kind IN (message, control)`
abbrev pub pending_to : String → Message → Bool
pending_to to m =
    str_eq m.to_agent to
    && (is_state State.queued m || is_state State.delivering m)
    && (same_kind m.kind Kind.message || same_kind m.kind Kind.control)

abbrev pub or_min : ℕ → Option ℕ → ℕ
or_min t none = t
or_min t (some u) = min t u

-- `SELECT MIN(created_at) … WHERE p`, NULL where no row is selected.
unfoldable pub min_created_at : (Message → Bool) → List Message → Option ℕ
min_created_at p [] = none
min_created_at p (m ∷ ms) =
    let rest = min_created_at p ms in if p m then some (or_min m.created_at rest) else rest

unfoldable pub recipient_oldest_pending_at : String → Store → Option ℕ
unfolding min_created_at
recipient_oldest_pending_at to s = min_created_at (pending_to (canonical_name to)) s.messages
