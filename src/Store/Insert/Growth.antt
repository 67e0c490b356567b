-- ===== src/Store/Insert/Growth.antt =====
-- Every insert operation, whatever it returns, only adds rows at the end of the table.
pub mod Calls
use mathlib.Core.List.{map-append}
use tmux_tell.Common.{
  ℕ, suc, String, Bool, true, false, Option, none, some, List, [], ◌∷◌, ◌++◌, ◌≡◌, refl, ap, ◌∙◌,
  sym, map, arith, Option-cases, if◌then◌else◌, if_cases, str_eq, inl, inr, subst, any_row,
  Bool-cases, ◌||◌, any_row-append,
}
use tmux_tell.Store.Tables.{Message, Store, Error, CapError, Result, ok, err}
use tmux_tell.Store.Insert.{
  InsertParams, InsertResult, canonical_params, uncapped, check_caps_in_tx, has_public_id,
  validate_insert_params, validate_reply_to,
}
use tmux_tell.Store.Insert.Attempts.{
  append_row, resolves, queued_row, insert_one_in_tx, insert_refused_row,
}
use tmux_tell.Store.Insert.Operations.{
  ring, ring_if_queued, rolled_back, commit_one, rejected, with_first, with_second, linked,
  rejected_pair, uncapped_if_deferred, first_error, insert_checked, insert_message, insert_notice,
  insert_pair_checked, insert_message_pair, pair_error,
}
use tmux_tell.Store.Insert.Outcomes.{
  redrawn, Fresh, Placed, insert_one_in_tx-Placed, Recorded, insert_refused_row-Recorded,
}
use tmux_tell.Store.Evolution.{Evolves, Evolves-refl, Evolves-trans, Evolves-append}
use tmux_tell.Store.Integrity.{
  Key, key, has_key, SoundKeys, IsSound, SoundKeys-append, Resolved, any_key,
}

-- The tables after a number of accepted rows.
pub data Grows : Store → Store → Type 0 where
  same :
      {s t : Store}
      → t.messages ≡ s.messages
      → t.next_id ≡ s.next_id
      → t.agents ≡ s.agents
      → Grows s t
  row :
      {s t u : Store} (m : Message)
      → Grows s t
      → Fresh m t
      → u.messages ≡ t.messages ++ record m { id = t.next_id } ∷ []
      → u.next_id ≡ suc t.next_id
      → u.agents ≡ t.agents
      → Grows s u

pub Grows-agents : {s t : Store} → Grows s t → t.agents ≡ s.agents
Grows-agents (same m n a) = a
Grows-agents (row m g f e n a) = a ∙ Grows-agents g

pub Grows-Evolves : {s t : Store} → Grows s t → Evolves s.messages t.messages
Grows-Evolves (same {s = s} m n a) = rw m (Evolves-refl s.messages)
Grows-Evolves (row {s = s} {t = t} {u = u} m g f e n a) =
    rw e (Evolves-trans s.messages t.messages _ (Grows-Evolves g) (Evolves-append t.messages _))

resolves-key :
    (r : Option String) (own : String) (k : Key) (ms : List Message)
    → k.public_id ≡ own
    → resolves r own ms ≡ true
    → Resolved (map key ms ++ k ∷ []) r
resolves-key none own k ms e h = tt
resolves-key (some r) own k ms e h =
    any_row-append (has_key r) (map key ms) (k ∷ []) ∙ ground (arith, any_key r ms)

row-IsSound :
    (s t : Store) (m : Message)
    → IsSound s
    → Fresh m s
    → t.messages ≡ s.messages ++ record m { id = s.next_id } ∷ []
    → t.next_id ≡ suc s.next_id
    → IsSound t
row-IsSound s t m sound f e n =
    rw (e, n)
      (rw (map-append key s.messages (record m { id = s.next_id } ∷ [])) (
        SoundKeys-append s.next_id (map key s.messages)
          (record { id = s.next_id; public_id = m.public_id; reply_to = m.reply_to }) sound refl
          (any_key m.public_id s.messages ∙ f.unique)
          (resolves-key m.reply_to m.public_id _ s.messages refl f.resolved)))

pub Grows-IsSound : {s t : Store} → Grows s t → IsSound s → IsSound t
Grows-IsSound (same m n a) sound = rw (m, n) sound
Grows-IsSound (row {t = t} {u = u} m g f e n a) sound =
    row-IsSound t u m (Grows-IsSound g sound) f e n
