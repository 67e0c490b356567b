-- ===== src/Store/Thread.antt =====
-- internal/store/thread.go: `GetThread` and `findThreadRoot`. Both loops run on fuel; cancellation is
-- left out.
pub mod Root
pub mod Descendants
use tmux_tell.Common.{
  ℕ, zero, suc, ◌+◌, String, Bool, true, false, Option, none, some, List, [], ◌∷◌, ◌++◌, ◌&&◌, ◌||◌,
  ltb, str_eq, if◌then◌else◌, length, select_rows, first_row,
}
use tmux_tell.Store.Tables.{Message, Store}
use tmux_tell.Store.Insert.{has_public_id}

abbrev pub has_text : String → List String → Bool
has_text t [] = false
has_text t (u ∷ us) = str_eq t u || has_text t us

-- What the walk towards the root returns.
pub data Walk : Type 0 where
  root : Message → Walk
  missing : Walk
  cycle : String → Walk
  unfinished : Walk

-- The column `reply_to`: NULL and the empty text end the walk.
abbrev pub parent_of : Message → Option String
parent_of m = elim m.reply_to [ none ↦ none | some r ↦ if str_eq r "" then none else some r ]

abbrev pub or_root : Message → Option String → (String → Walk) → Walk
or_root m none rest = root m
or_root m (some r) rest = rest r

abbrev pub at_row : Option Message → (String → Walk) → Walk
at_row none rest = missing
at_row (some m) rest = or_root m (parent_of m) rest

unfoldable pub walk_up : ℕ → List String → String → Store → Walk
walk_up zero visited current s = unfinished
walk_up (suc fuel) visited current s =
    if has_text current visited
    then cycle current
    else at_row (first_row (has_public_id current) s.messages)
        (λ r. walk_up fuel (current ∷ visited) r s)

unfoldable pub find_thread_root : String → Store → Walk
unfolding walk_up
find_thread_root start s = walk_up (suc (length s.messages)) [] start s

abbrev pub replies_to : String → Message → Bool
replies_to i m = elim m.reply_to [ none ↦ false | some r ↦ str_eq r i ]

-- The variables of the search: the public ids seen, the rows found, the ids whose replies are to come.
pub record Search : Type 0 where
  pub visited : List String
  pub out : List Message
  pub queue : List String

abbrev pub visit : Message → Search → Search
visit c x = if has_text c.public_id x.visited then x else record {
  visited = c.public_id ∷ x.visited;
  out = x.out ++ c ∷ [];
  queue = x.queue ++ c.public_id ∷ [];
}

abbrev pub visit_all : List Message → Search → Search
visit_all [] x = x
visit_all (c ∷ cs) x = visit_all cs (visit c x)

abbrev pub next_round : List String → Search → Store → (Search → Option Search) → Option Search
next_round [] x s rest = some x
next_round (q ∷ qs) x s rest =
    rest (visit_all (select_rows (replies_to q) s.messages) (record x { queue = qs }))

-- `none` means that the fuel ran out.
unfoldable pub search_down : ℕ → Search → Store → Option Search
search_down zero x s = next_round x.queue x s (λ y. none)
search_down (suc fuel) x s = next_round x.queue x s (λ y. search_down fuel y s)

abbrev pub insert_by_id : Message → List Message → List Message
insert_by_id m [] = m ∷ []
insert_by_id m (x ∷ xs) = if ltb m.id x.id then m ∷ x ∷ xs else x ∷ insert_by_id m xs

abbrev pub sort_by_id : List Message → List Message
sort_by_id [] = []
sort_by_id (m ∷ ms) = insert_by_id m (sort_by_id ms)

abbrev pub first_visit : Message → Search
first_visit m = record { visited = m.public_id ∷ []; out = m ∷ []; queue = m.public_id ∷ [] }

pub data Thread : Type 0 where
  rows : List Message → Thread
  not_found : Thread
  cyclic : String → Thread
  out_of_fuel : Thread

abbrev pub collected : Option Search → Thread
collected none = out_of_fuel
collected (some x) = rows (sort_by_id x.out)

abbrev pub below_root : Walk → Store → Thread
below_root (root m) s = collected (search_down (suc (length s.messages)) (first_visit m) s)
below_root missing s = not_found
below_root (cycle i) s = cyclic i
below_root unfinished s = out_of_fuel

unfoldable pub get_thread : String → Store → Thread
unfolding find_thread_root search_down
get_thread any s = below_root (find_thread_root any s) s
