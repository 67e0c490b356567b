-- ===== src/Examples/Commands.antt =====
-- The theorems on control commands at concrete commands and labels.
use tmux_tell.Common.{true, String, none, some, ◌≡◌, ◌≢◌, arith, ◌↔◌, ◌≤◌, refl, In}
use tmux_tell.Names.{to_lower, trim_left, trim_right}
use tmux_tell.Control.{
  Scope, canonicalize, names_for_scope, resolve, types, validate_for_task, max_for_task_len,
  LabelFault,
}
use tmux_tell.Control.Scopes.{resolve-iff-names, IsRescue, resolve-IsRescue}
use tmux_tell.Control.Labels.{
  Codes, IsInert, starts_alphanumeric, char_count, validate_for_task-IsInert,
}

listed_example :
    In (canonicalize " /Sleep").0 (names_for_scope Scope.self "pilot" "pilot")
    ↔ ((line : String) × (resolve " /Sleep" Scope.self "pilot" "pilot" ≡ types line))
listed_example = resolve-iff-names " /Sleep" Scope.self "pilot" "pilot"

bosun_clears : resolve "CLEAR" Scope.peer "bosun" "pilot" ≡ types "/clear"
unfolding resolve canonicalize to_lower trim_left trim_right
bosun_clears = refl

clear_example : IsRescue Scope.peer "bosun" "pilot"
clear_example = resolve-IsRescue "CLEAR" Scope.peer "bosun" "pilot" bosun_clears

label_passes : validate_for_task "frankenbit/tmux-tell#286" ≡ none
unfolding validate_for_task
label_passes = refl

label_example :
    Codes IsInert "frankenbit/tmux-tell#286"
    × (starts_alphanumeric "frankenbit/tmux-tell#286" ≡ true)
    × (1 ≤ char_count "frankenbit/tmux-tell#286")
    × (char_count "frankenbit/tmux-tell#286" ≤ max_for_task_len)
label_example = validate_for_task-IsInert "frankenbit/tmux-tell#286" label_passes

-- A second line is refused, and so is a label of 81 bytes.
second_line_refused : validate_for_task "a\nb" ≡ some LabelFault.bad_code
unfolding validate_for_task
second_line_refused = refl

-- A self-only command is not for peers.
peer_sleep : resolve "sleep" Scope.peer "bosun" "pilot" ≢ types "/compact"
unfolding resolve canonicalize to_lower trim_left trim_right
peer_sleep h = absurd (ground arith)
