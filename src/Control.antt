-- ===== src/Control.antt =====
-- internal/control/control.go: the whitelist of slash commands, who may aim which at whom, and the
-- check of a target-task label.
pub mod Scopes
pub mod Labels
use Prim.Native.Char.{code}
use tmux_tell.Common.{
  ℕ, suc, ◌+◌, String, Bool, true, false, Option, none, some, List, [], ◌∷◌, ◌&&◌, ◌||◌, leb, ltb,
  ◌==◌, str_eq, if◌then◌else◌, map, first_row, select_rows, any_row,
}
use tmux_tell.Names.{to_lower, trim_left, trim_right}

pub data Scope : Type 0 where
  self peer : Scope

-- The description is help text, and is left out.
pub record Command : Type 0 where
  pub name : String
  pub line : String
  pub to_self : Bool
  pub to_peer : Bool

-- `Allowed`, in the order of its sorted keys.
abbrev pub allowed : List Command
allowed =
    record { name = "clear"; line = "/clear"; to_self = false; to_peer = false }
    ∷ record { name = "compact"; line = "/compact"; to_self = true; to_peer = false }
    ∷ record { name = "cost"; line = "/cost"; to_self = true; to_peer = false }
    ∷ record { name = "help"; line = "/help"; to_self = true; to_peer = true }
    ∷ record {
      name = "mcp-disable-tmux-tell";
      line = "/mcp disable tmux-tell";
      to_self = true;
      to_peer = false;
    }
    ∷ record {
      name = "mcp-enable-tmux-tell";
      line = "/mcp enable tmux-tell";
      to_self = true;
      to_peer = true;
    }
    ∷ record {
      name = "mcp-restart-tmux-tell";
      line = "/mcp restart tmux-tell";
      to_self = true;
      to_peer = true;
    }
    ∷ record { name = "rename"; line = "/rename"; to_self = true; to_peer = true }
    ∷ []

-- `aliasOf`
abbrev pub alias_of : String → Option String
alias_of n =
    if str_eq n "mcp-disable-tmux-msg"
    then some "mcp-disable-tmux-tell"
    else if str_eq n "mcp-enable-tmux-msg"
    then some "mcp-enable-tmux-tell"
    else if str_eq n "mcp-restart-tmux-msg"
    then some "mcp-restart-tmux-tell"
    else if str_eq n "sleep"
    then some "compact"
    else none

abbrev pub trim_slash : String → String
trim_slash String.[] = String.[]
trim_slash (String.◌∷◌ c s) = if code c == b'/' then s else String.◌∷◌ c s

abbrev pub or_itself : String → Option String → String × Bool
or_itself n none = (n, false)
or_itself n (some c) = (c, true)

-- The canonical name, and whether the input was a deprecated alias.
unfoldable pub canonicalize : String → String × Bool
canonicalize name =
    let n = to_lower (trim_slash (trim_right (trim_left name))) in or_itself n (alias_of n)

pub record Edge : Type 0 where
  pub from : String
  pub to : String

-- `PeerEdges`
abbrev pub peer_edges : String → List Edge
peer_edges n =
    if str_eq n "clear"
    then record { from = "bosun"; to = "pilot" }
      ∷ record { from = "quartermaster"; to = "pilot" }
      ∷ []
    else []

abbrev pub matches_edge : String → String → Edge → Bool
matches_edge sender recipient e = str_eq e.from sender && str_eq e.to recipient

abbrev pub named_command : String → Command → Bool
named_command n c = str_eq c.name n

-- Why a command is denied, as the error's text says it.
pub data Denial : Type 0 where
  peer_only edges_only no_scope self_only not_on_edge : Denial

pub data Resolution : Type 0 where
  types : String → Resolution
  not_allowed : Resolution
  scope_denied : Denial → Resolution

abbrev pub is_empty : {A : Type 0} → List A → Bool
is_empty [] = true
is_empty (x ∷ xs) = false

abbrev pub resolve_self : Command → Resolution
resolve_self c =
    if c.to_self
    then types c.line
    else if c.to_peer
    then scope_denied Denial.peer_only
    else if is_empty (peer_edges c.name)
    then scope_denied Denial.no_scope
    else scope_denied Denial.edges_only

abbrev pub resolve_peer : String → String → Command → Resolution
resolve_peer sender recipient c =
    if c.to_peer
    then types c.line
    else if any_row (matches_edge sender recipient) (peer_edges c.name)
    then types c.line
    else if is_empty (peer_edges c.name)
    then scope_denied Denial.self_only
    else scope_denied Denial.not_on_edge

abbrev pub resolve_in : Scope → String → String → Option Command → Resolution
resolve_in scope sender recipient none = not_allowed
resolve_in Scope.self sender recipient (some c) = resolve_self c
resolve_in Scope.peer sender recipient (some c) = resolve_peer sender recipient c

abbrev pub resolve_canonical : String → Scope → String → String → Resolution
resolve_canonical n scope sender recipient =
    if str_eq n ""
    then not_allowed
    else resolve_in scope sender recipient (first_row (named_command n) allowed)

unfoldable pub resolve : String → Scope → String → String → Resolution
resolve name = resolve_canonical (canonicalize name).0

-- `Names`
unfoldable pub names : List String
names = map (λ (c : Command). c.name) allowed

abbrev pub invokable : Scope → String → String → Command → Bool
invokable Scope.self sender recipient c = c.to_self
invokable Scope.peer sender recipient c =
    c.to_peer || any_row (matches_edge sender recipient) (peer_edges c.name)

-- The table is sorted by name, so the names that are kept are too.
unfoldable pub names_for_scope : Scope → String → String → List String
names_for_scope scope sender recipient =
    map (λ (c : Command). c.name) (select_rows (invokable scope sender recipient) allowed)

abbrev pub max_for_task_len : ℕ
max_for_task_len = 80

abbrev pub utf8_size : ℕ → ℕ
utf8_size n = if ltb n 0x80 then 1 else if ltb n 0x800 then 2 else if ltb n 0x10000 then 3 else 4

-- `len`, in bytes.
abbrev pub byte_length : String → ℕ
byte_length String.[] = 0
byte_length (String.◌∷◌ c s) = utf8_size (code c) + byte_length s

abbrev pub is_alphanumeric : ℕ → Bool
is_alphanumeric n =
    leb b'0' n && leb n b'9' || (leb b'A' n && leb n b'Z' || leb b'a' n && leb n b'z')

abbrev pub is_label_code : ℕ → Bool
is_label_code n =
    is_alphanumeric n || (n == 32 || (n == 35 || (n == 47 || (n == 46 || (n == 95 || n == 45)))))

abbrev pub label_codes : String → Bool
label_codes String.[] = true
label_codes (String.◌∷◌ c s) = is_label_code (code c) && label_codes s

-- `forTaskRe`
abbrev pub for_task_re : String → Bool
for_task_re String.[] = false
for_task_re (String.◌∷◌ c s) = is_alphanumeric (code c) && label_codes s

pub data LabelFault : Type 0 where
  empty too_long bad_code : LabelFault

unfoldable pub validate_for_task : String → Option LabelFault
validate_for_task s =
    if str_eq s ""
    then some LabelFault.empty
    else if ltb max_for_task_len (byte_length s)
    then some LabelFault.too_long
    else if for_task_re s
    then none
    else some LabelFault.bad_code
