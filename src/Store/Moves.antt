-- ===== src/Store/Moves.antt =====
-- The operations that update rows in place: what they leave alone, and what follows for the table.
use tmux_tell.Common.{Bool, true, false, ◌≡◌, update_rows, In, if◌then◌else◌}
use tmux_tell.Store.Tables.{Message, Store}
use tmux_tell.Store.Evolution.{Evolves, Evolves-refl, Evolves-update_rows, RowStep}
use tmux_tell.Store.Integrity.{key, IsSound, keys-update_rows}

-- The rows stay, or an UPDATE changes those that it selects.
pub data Moves : Store → Store → Type 0 where
  kept : {s t : Store} → t.messages ≡ s.messages → t.next_id ≡ s.next_id → Moves s t
  updated :
      {s t : Store} (p : Message → Bool) (f : Message → Message)
      → t.messages ≡ update_rows p f s.messages
      → t.next_id ≡ s.next_id
      → ((m : Message) → key (f m) ≡ key m)
      → ((m : Message) → In m s.messages → p m ≡ true → RowStep m (f m))
      → Moves s t

pub Moves-Evolves : {s t : Store} → Moves s t → Evolves s.messages t.messages
Moves-Evolves (kept {s} e n) = rw e (Evolves-refl s.messages)
Moves-Evolves (updated {s} p f e n k step) = rw e (Evolves-update_rows p f s.messages step)

pub Moves-IsSound : {s t : Store} → Moves s t → IsSound s → IsSound t
Moves-IsSound (kept e n) sound = rw (e, n) sound
Moves-IsSound (updated {s} p f e n k step) sound =
    rw (e, n, keys-update_rows p f s.messages k) sound

pub if-Moves : (b : Bool) {s t u : Store} → Moves s t → Moves s u → Moves s (if b then t else u)
if-Moves true x y = x
if-Moves false x y = y
