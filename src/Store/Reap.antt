-- ===== src/Store/Reap.antt =====
-- internal/store/messages.go: the undeliverable fossils, queued rows older than a cutoff whose
-- recipient has no live pane (`ListReapableUndeliverable`, `ReapUndeliverable`).
pub mod Spares
use Prim.Native.Char.{code}
use tmux_tell.Common.{
  ℕ, String, Bool, true, false, Option, none, some, List, ◌&&◌, ◌||◌, not, ltb, ◌==◌, str_eq,
  if◌then◌else◌, select_rows, update_rows, count_rows, any_row,
}
use tmux_tell.Names.{canonical_name}
use tmux_tell.Store.Tables.{State, Reason, Message, Agent, Store, is_state}
use tmux_tell.Store.Claim.{is_some}
use tmux_tell.Store.Deliver.{as_failed}

-- SQLite's TRIM takes away spaces only, and only blanks make a pane id that is none.
unfoldable pub is_blank : String → Bool
is_blank String.[] = true
is_blank (String.◌∷◌ c s) = code c == 32 && is_blank s

abbrev pub live_pane : Option String → Bool
live_pane none = false
live_pane (some p) = not (is_blank p)

-- An agent row that makes a recipient reachable.
abbrev pub reaches_pane : String → Agent → Bool
reaches_pane to a = str_eq a.name to && live_pane a.pane_id

abbrev pub addressed_to : String → Message → Bool
addressed_to agent m = str_eq agent "" || str_eq m.to_agent (canonical_name agent)

-- `reapableUndeliverablePredicate`, scoped to one recipient if `agent` is not empty.
abbrev pub reapable : List Agent → String → ℕ → Message → Bool
reapable agents agent cutoff m =
    is_state State.queued m
    && not (is_some m.deliver_after)
    && ltb m.created_at cutoff
    && not (any_row (reaches_pane m.to_agent) agents)
    && addressed_to agent m

-- The rows that a dry run lists; their order, by `created_at`, is left out.
unfoldable pub list_reapable_undeliverable : String → ℕ → Store → List Message
list_reapable_undeliverable agent cutoff s = select_rows (reapable s.agents agent cutoff) s.messages

unfoldable pub reap_undeliverable : String → ℕ → Reason → ℕ → Store → ℕ × Store
reap_undeliverable agent cutoff reason now s =
    let fossil = reapable s.agents agent cutoff in
    (
      count_rows fossil s.messages,
      record s { messages = update_rows fossil (as_failed reason now) s.messages },
    )
