-- ===== src/Store/Agents/Columns.antt =====
-- internal/store/agents.go, types.go, provider.go: the setters of the columns that an agent, its mailman
-- or the operator reports, with the tests of their values.
pub mod Bindings
use tmux_tell.Common.{
  ℕ, String, Bool, ◌&&◌, ◌||◌, Option, none, some, str_eq, if◌then◌else◌, update_rows,
}
use tmux_tell.Names.{canonical_name}
use tmux_tell.Store.Tables.{Agent, Store, Error, invalid_value, Result, ok, err}
use tmux_tell.Store.Insert.{named}
use tmux_tell.Store.Agents.{update_agent}

unfoldable pub valid_delivery_mode : String → Bool
valid_delivery_mode s =
    str_eq s "paste-and-enter" || (str_eq s "mailbox-only" || str_eq s "hook-context")

unfoldable pub valid_attention_state : String → Bool
valid_attention_state s = str_eq s "idle" || (str_eq s "busy" || str_eq s "awaiting_operator")

unfoldable pub valid_metabolism : String → Bool
valid_metabolism s =
    str_eq s "" || (str_eq s "warming" || (str_eq s "saturating" || str_eq s "compact-pending"))

unfoldable pub set_display_name : String → String → Store → Result (Unit {0}) × Store
set_display_name agent v s = update_agent agent (λ a. record a { display_name = v }) s

unfoldable pub set_session_id : String → String → Store → Result (Unit {0}) × Store
set_session_id agent v s = update_agent agent (λ a. record a { session_id = v }) s

unfoldable pub set_delivery_mode : String → String → ℕ → Store → Result (Unit {0}) × Store
unfolding valid_delivery_mode
set_delivery_mode agent mode now s =
    if valid_delivery_mode mode
    then update_agent agent (λ a. record a { delivery_mode = mode; updated_at = now }) s
    else (err invalid_value, s)

unfoldable pub set_attention_state : String → String → Store → Result (Unit {0}) × Store
unfolding valid_attention_state
set_attention_state agent v s =
    if valid_attention_state v
    then update_agent agent (λ a. record a { attention_state = v }) s
    else (err invalid_value, s)

-- The empty value clears the time too.
unfoldable pub set_metabolism : String → String → ℕ → Store → Result (Unit {0}) × Store
unfolding valid_metabolism
set_metabolism agent v now s =
    if valid_metabolism v
    then if str_eq v ""
      then update_agent agent (λ a. record a { metabolism = ""; metabolism_set_at = none }) s
      else update_agent agent (λ a. record a { metabolism = v; metabolism_set_at = some now }) s
    else (err invalid_value, s)

unfoldable pub clear_metabolism_if_pending : String → Store → Store
clear_metabolism_if_pending agent s = record s {
  agents =
      update_rows
        (λ (a : Agent). named (canonical_name agent) a && str_eq a.metabolism "compact-pending")
        (λ a. record a { metabolism = ""; metabolism_set_at = none }) s.agents;
}

-- A negative number is refused; the model's numbers are not negative.
unfoldable pub set_respawn_after_shrinks : String → ℕ → Store → Result (Unit {0}) × Store
set_respawn_after_shrinks agent n s =
    update_agent agent (λ a. record a { respawn_after_shrinks = n }) s

unfoldable pub set_relaunch_cmd : String → String → Store → Result (Unit {0}) × Store
set_relaunch_cmd agent v s = update_agent agent (λ a. record a { relaunch_cmd = v }) s

unfoldable pub set_auto_restart : String → Bool → Store → Result (Unit {0}) × Store
set_auto_restart agent on s = update_agent agent (λ a. record a { auto_restart = on }) s

-- `SetProvider`, which asks for no row.
unfoldable pub set_provider : String → String → Store → Store
set_provider agent v s = record s {
  agents = update_rows (named (canonical_name agent)) (λ a. record a { provider = v }) s.agents;
}
