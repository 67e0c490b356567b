-- ===== src/Examples/Queries.antt =====
-- The theorems on threads, replies, the tail and the order of flags, at the harbor and concrete arguments.
use tmux_tell.Common.{
  String, Bool, true, false, Option, none, some, List, [], ◌∷◌, ◌++◌, ◌≡◌, ◌≤◌, ◌&&◌, refl, inl,
  inr, All, arith, str_eq, select_rows, count_rows, first_row, any_row, take, if◌then◌else◌,
}
use tmux_tell.Names.{canonical_name}
use tmux_tell.Store.Tables.{Message, ok}
use tmux_tell.Store.Insert.{has_public_id}
use tmux_tell.Store.Thread.{rows, get_thread, find_thread_root, walk_up, search_down}
use tmux_tell.Store.Thread.Descendants.Closed.{
  get_thread-replies, IsGathered, get_thread-IsGathered,
}
use tmux_tell.Store.Queries.{TailFilter, tailed, tail_rows, find_reply, newer_than}
use tmux_tell.Store.Queries.Replies.{
  is_reply, is_later, replies_to as answers_to, find_reply-eq-first_row, find_reply-capped,
}
use tmux_tell.Store.Queries.Pages.{last_id, tail_rows-pages}
use tmux_tell.Flags.{reorder_flags_first, split_tokens}
use tmux_tell.Flags.Order.{
  occurrences, reorder_flags_first-occurrences, reorder_flags_first-terminator,
}
use tmux_tell.Examples.Data.{harbor, harbor-IsSound, third, reply}

thread_of_reply : get_thread "m4" harbor ≡ rows (third ∷ reply ∷ [])
unfolding get_thread find_thread_root walk_up search_down
thread_of_reply = refl

thread_example : any_row (has_public_id "m4") (third ∷ reply ∷ []) ≡ true
thread_example =
    get_thread-replies "m4" harbor (third ∷ reply ∷ []) reply "m3" thread_of_reply refl
      (inr (inr (inr (inl refl)))) refl

total_example : IsGathered (get_thread "m3" harbor)
total_example = get_thread-IsGathered "m3" harbor

pilot_named : str_eq (canonical_name "pilot") "" ≡ false
unfolding canonical_name
pilot_named = refl

few_replies : count_rows (is_reply (canonical_name "pilot") "m3") harbor.messages ≤ 1000
unfolding canonical_name
few_replies = omega arith

answered_example :
    find_reply "pilot" "m3" 2 harbor
    ≡ ok (
        first_row
          (λ (m : Message). is_reply (canonical_name "pilot") "m3" m && is_later 2 m)
          harbor.messages)
answered_example = find_reply-eq-first_row "pilot" "m3" 2 harbor pilot_named refl few_replies

old_replies :
    All (λ (m : Message). newer_than 4 m ≡ false) (take 1000 (answers_to "pilot" "m3" harbor))
unfolding canonical_name
old_replies = (refl, tt)

capped_example : find_reply "pilot" "m3" 4 harbor ≡ ok none
capped_example = find_reply-capped "pilot" "m3" 4 harbor pilot_named refl (omega arith) old_replies

abbrev everything : TailFilter
everything = record { from = ""; to = ""; kind = none; since_created_at = none }

tail_example :
    select_rows (tailed 1 everything) harbor.messages
    ≡ tail_rows 1 everything 2 harbor
      ++ select_rows
          (tailed (last_id 1 (tail_rows 1 everything 2 harbor)) everything)
          harbor.messages
tail_example = tail_rows-pages 1 2 everything harbor harbor-IsSound

-- `--command` takes a value, and `--force` none.
abbrev known_flags : String → Option Bool
known_flags n =
    if str_eq n "command" then some false else if str_eq n "force" then some true else none

abbrev control_args : List String
control_args = "alice" ∷ "--command" ∷ "compact" ∷ "--force" ∷ "bob" ∷ []

reordered :
    reorder_flags_first known_flags control_args
    ≡ "--command" ∷ "compact" ∷ "--force" ∷ "alice" ∷ "bob" ∷ []
unfolding reorder_flags_first split_tokens
reordered = refl

occurrences_example :
    occurrences "compact" (reorder_flags_first known_flags control_args)
    ≡ occurrences "compact" control_args
occurrences_example = reorder_flags_first-occurrences known_flags "compact" control_args refl

terminator_example :
    reorder_flags_first known_flags (("alice" ∷ []) ++ "--" ∷ "--force" ∷ [])
    ≡ ("alice" ∷ []) ++ "--force" ∷ []
terminator_example =
    reorder_flags_first-terminator known_flags ("alice" ∷ []) ("--force" ∷ []) ((refl, refl), tt)
