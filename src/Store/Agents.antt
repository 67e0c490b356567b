-- ===== src/Store/Agents.antt =====
-- internal/store/agents.go: `UpsertAgent`, the paused flag, the count of context shrinks and the two
-- consumers of the self-compact signal. A timestamp column that is NULL or empty is `none`.
pub mod Panes
pub mod Shrinks
pub mod Columns
use tmux_tell.Common.{
  ℕ, suc, ◌+◌, String, Bool, true, false, Option, none, some, List, [], ◌∷◌, ◌++◌, ◌&&◌, not, ltb,
  ◌==◌, str_eq, if◌then◌else◌, length, count_rows, first_row, update_rows,
}
use tmux_tell.Names.{canonical_name, reserved_routing_name}
use tmux_tell.Store.Tables.{
  Agent, Store, Error, not_found, invalid_value, name_required, reserved_name, Result, ok, err,
}
use tmux_tell.Store.Insert.{named}
use tmux_tell.Store.Deliver.{promote_deferred}

-- A new row: what the INSERT does not name has the defaults of the schema and its migrations.
abbrev pub new_agent : String → Option String → ℕ → Agent
new_agent name pane now = record {
  name = name;
  pane_id = pane;
  paused = false;
  updated_at = now;
  aliases = [];
  delivery_mode = "paste-and-enter";
  backlog_epoch = none;
  attention_state = "idle";
  stuck_reason = "";
  display_name = "";
  session_id = "";
  metabolism = "";
  metabolism_set_at = none;
  respawn_after_shrinks = 0;
  respawn_shrink_count = 0;
  last_self_compact_at = none;
  self_compact_counted_at = none;
  resume_promoted_at = none;
  relaunch_cmd = "";
  auto_restart = false;
  provider = "";
}

-- `INSERT … ON CONFLICT(name) DO UPDATE`
abbrev pub insert_or_update : Agent → (Agent → Agent) → List Agent → List Agent
insert_or_update new change agents =
    if count_rows (named new.name) agents == 0
    then agents ++ new ∷ []
    else update_rows (named new.name) change agents

abbrev pub has_pane : String → Option String → Bool
has_pane pane none = false
has_pane pane (some p) = str_eq p pane

-- Another agent's row that holds the pane.
abbrev pub holds_pane : String → String → Agent → Bool
holds_pane pane name a = has_pane pane a.pane_id && not (str_eq a.name name)

abbrev pub without_pane : ℕ → Agent → Agent
without_pane now a = record a { pane_id = none; updated_at = now }

abbrev pub with_pane : String → ℕ → Agent → Agent
with_pane pane now a = record a { pane_id = some pane; updated_at = now }

-- The two statements of the transaction that moves a pane.
unfoldable pub bind_pane : String → String → ℕ → List Agent → List Agent
bind_pane name pane now agents =
    insert_or_update (new_agent name (some pane) now) (with_pane pane now)
      (update_rows (holds_pane pane name) (without_pane now) agents)

unfoldable pub upsert_agent : String → String → ℕ → Store → Result (Unit {0}) × Store
unfolding bind_pane
upsert_agent agent pane now s =
    let name = canonical_name agent in
    if str_eq name ""
    then (err name_required, s)
    else if reserved_routing_name name
    then (err reserved_name, s)
    else if str_eq pane ""
    then (
      ok tt,
      record s {
        agents =
            insert_or_update (new_agent name none now) (λ a. record a { updated_at = now })
              s.agents;
      },
    )
    else (ok tt, record s { agents = bind_pane name pane now s.agents })

-- UPDATE agents … WHERE name = ?, refused where there is no such agent.
abbrev pub update_agent : String → (Agent → Agent) → Store → Result (Unit {0}) × Store
update_agent agent change s =
    let mine = named (canonical_name agent) in
    if count_rows mine s.agents == 0
    then (err not_found, s)
    else (ok tt, record s { agents = update_rows mine change s.agents })

unfoldable pub set_paused : String → Bool → ℕ → Store → Result (Unit {0}) × Store
set_paused agent paused now s =
    update_agent agent (λ a. record a { paused = paused; updated_at = now }) s

-- `setStuckReason`
unfoldable pub set_stuck_reason : String → String → Store → Result (Unit {0}) × Store
set_stuck_reason agent reason s = update_agent agent (λ a. record a { stuck_reason = reason }) s

unfoldable pub set_stuck : String → String → Store → Result (Unit {0}) × Store
unfolding set_stuck_reason
set_stuck agent reason s =
    if str_eq reason "" then (err invalid_value, s) else set_stuck_reason agent reason s

unfoldable pub clear_stuck : String → Store → Result (Unit {0}) × Store
unfolding set_stuck_reason
clear_stuck agent s = set_stuck_reason agent "" s

unfoldable pub set_paused_all : Bool → ℕ → Store → ℕ × Store
set_paused_all paused now s = (
  length s.agents,
  record s {
    agents = update_rows (λ _. true) (λ a. record a { paused = paused; updated_at = now }) s.agents;
  },
)

unfoldable pub get_agent : String → Store → Result Agent
get_agent agent s = elim (first_row (named (canonical_name agent)) s.agents) [
  | none ↦ err not_found
  | some a ↦ ok a
]

unfoldable pub reset_respawn_shrink_count : String → Store → Store
reset_respawn_shrink_count agent s = record s {
  agents =
      update_rows (named (canonical_name agent)) (λ a. record a { respawn_shrink_count = 0 })
        s.agents;
}

unfoldable pub set_self_compact_signal_at : String → ℕ → Store → Result (Unit {0}) × Store
set_self_compact_signal_at agent at_time s =
    update_agent agent (λ a. record a { last_self_compact_at = some at_time }) s

-- The signal is there and newer than the watermark.
abbrev pub is_newer : Option ℕ → Option ℕ → Bool
is_newer none watermark = false
is_newer (some signal) none = true
is_newer (some signal) (some watermark) = ltb watermark signal

abbrev pub uncounted : String → Agent → Bool
uncounted name a = named name a && is_newer a.last_self_compact_at a.self_compact_counted_at

abbrev pub as_counted : Agent → Agent
as_counted a = record a {
  respawn_shrink_count = suc a.respawn_shrink_count;
  self_compact_counted_at = a.last_self_compact_at;
}

abbrev shrink_count : Option Agent → ℕ
shrink_count none = 0
shrink_count (some a) = a.respawn_shrink_count

-- The new count.
unfoldable pub increment_respawn_shrink_count : String → Store → Result ℕ × Store
increment_respawn_shrink_count agent s =
    let name = canonical_name agent in
    let counted =
      update_rows (named name) (λ a. record a { respawn_shrink_count = suc a.respawn_shrink_count })
        s.agents in
    if count_rows (named name) s.agents == 0
    then (err not_found, s)
    else (ok (shrink_count (first_row (named name) counted)), record s { agents = counted })

-- The new count; `none` where nothing was counted.
unfoldable pub count_self_compact_if_new : String → Store → Option ℕ × Store
count_self_compact_if_new agent s =
    let name = canonical_name agent in
    let counted = update_rows (uncounted name) as_counted s.agents in
    if count_rows (uncounted name) s.agents == 0
    then (none, s)
    else (some (shrink_count (first_row (named name) counted)), record s { agents = counted })

abbrev pub unpromoted : String → Agent → Bool
unpromoted name a = named name a && is_newer a.last_self_compact_at a.resume_promoted_at

abbrev pub as_promoted : Agent → Agent
as_promoted a = record a { resume_promoted_at = a.last_self_compact_at }

-- The number of rows promoted; `none` where the signal is not new.
unfoldable pub promote_resume_on_self_compact_if_new : String → String → Store → Option ℕ × Store
promote_resume_on_self_compact_if_new agent trigger s =
    let name = canonical_name agent in
    if count_rows (unpromoted name) s.agents == 0
    then (none, s)
    else (let (n, t) =
          promote_deferred name trigger
            (record s { agents = update_rows (unpromoted name) as_promoted s.agents }) in
        (some n, t))
