-- ===== src/Store/History/Life.antt =====
-- Whole runs of the store: rows last, finished messages stay as they are, the table stays sound.
use tmux_tell.Common.{
  ℕ, String, true, false, Option, List, [], ◌∷◌, ◌≡◌, refl, sym, inl, inr, In, arith,
}
use tmux_tell.Store.Tables.{State, Message, Store}
use tmux_tell.Store.Evolution.{
  Evolves, Evolves-refl, Evolves-trans, reaches, is_terminal, same_state-eq,
}
use tmux_tell.Store.Integrity.{IsSound}
use tmux_tell.Store.Moves.{Moves, Moves-Evolves, Moves-IsSound}
use tmux_tell.Store.Insert.Growth.{Grows, Grows-Evolves, Grows-IsSound}
use tmux_tell.Store.Insert.Growth.Calls.{
  insert_message-Grows, insert_notice-Grows, insert_message_pair-Grows,
}
use tmux_tell.Store.Deliver.{mark_delivered, mark_delivered_in_input_box}
use tmux_tell.Store.History.{Call, perform, run}
use tmux_tell.Store.History.Rows.{
  claim-Moves, recover-Moves, delivered-Moves, failed-Moves, verified-Moves, promote-Moves,
  epoch-Moves, acknowledge-Moves, batch-Moves, stale-Moves, reap-Moves, agent-Moves,
}

-- What one call, and then a run of calls, does to the table.
pub record Kept (s t : Store) : Type 0 where
  pub rows : Evolves s.messages t.messages
  pub sound : IsSound t

pub grown : {s t : Store} → IsSound s → Grows s t → Kept s t
grown sound g = record { rows = Grows-Evolves g; sound = Grows-IsSound g sound }

pub moved : {s t : Store} → IsSound s → Moves s t → Kept s t
moved sound m = record { rows = Moves-Evolves m; sound = Moves-IsSound m sound }

module _ (draws : ℕ → Option String) where
  perform-Kept : (now : ℕ) (c : Call) (s : Store) → IsSound s → Kept s (perform draws now c s)
  unfolding perform mark_delivered mark_delivered_in_input_box
  perform-Kept now (Call.message p) s h = grown h (insert_message-Grows draws now p s)
  perform-Kept now (Call.notice p) s h = grown h (insert_notice-Grows draws now p s)
  perform-Kept now (Call.pair p q link) s h =
      grown h (insert_message_pair-Grows draws now p q link s)
  perform-Kept now (Call.claim to strategy) s h = moved h (claim-Moves to strategy s h)
  perform-Kept now (Call.recover to) s h = moved h (recover-Moves to s)
  perform-Kept now (Call.delivered i) s h = moved h (delivered-Moves i now true s)
  perform-Kept now (Call.in_input_box i) s h = moved h (delivered-Moves i now false s)
  perform-Kept now (Call.failed i reason) s h = moved h (failed-Moves i reason now s)
  perform-Kept now (Call.promote to trigger) s h = moved h (promote-Moves to trigger s)
  perform-Kept now (Call.verified i) s h = moved h (verified-Moves i s)
  perform-Kept now (Call.set_epoch name floor) s h = moved h (epoch-Moves name floor s)
  perform-Kept now (Call.acknowledge to i) s h = moved h (acknowledge-Moves to i s)
  perform-Kept now (Call.acknowledge_batch to epoch) s h = moved h (batch-Moves to epoch s)
  perform-Kept now (Call.acknowledge_stale to) s h = moved h (stale-Moves to s)
  perform-Kept now (Call.reap agent cutoff reason) s h =
      moved h (reap-Moves agent cutoff reason now s)
  perform-Kept now (Call.remove_agent name) s h = moved h (agent-Moves name s)

  run-Kept : (calls : List (ℕ × Call)) (s : Store) → IsSound s → Kept s (run draws calls s)
  unfolding run
  run-Kept [] s h = record { rows = Evolves-refl s.messages; sound = h }
  run-Kept ((now, c) ∷ calls) s h =
      let k = perform-Kept now c s h in
      let r = run-Kept calls (perform draws now c s) k.sound in
      record { rows = Evolves-trans s.messages _ _ k.rows r.rows; sound = r.sound }

  -- In any run of the writes that delete no message, from a sound store, no row is lost or moved: each
  -- keeps its id, public id, addresses, text, reply and time of creation, and its state changes only
  -- along its life, from deferred to queued, from queued to an end, and between queued and delivering.
  pub run-Evolves :
      (calls : List (ℕ × Call)) (s : Store)
      → IsSound s
      → Evolves s.messages (run draws calls s).messages
  run-Evolves calls s sound = (run-Kept calls s sound).rows

  -- In any run of the writes that delete no message, a sound store stays sound: ids ascend below the
  -- next one, public ids are distinct, and each reply is to a row of the table.
  pub run-IsSound : (calls : List (ℕ × Call)) (s : Store) → IsSound s → IsSound (run draws calls s)
  run-IsSound calls s sound = (run-Kept calls s sound).sound

-- A row that ended, as it is later.
pub record Ended (m : Message) (ms : List Message) : Type 0 where
  pub row : Message
  pub row_in : In row ms
  pub id : row.id ≡ m.id
  pub public_id : row.public_id ≡ m.public_id
  pub body : row.body ≡ m.body
  pub state : row.state ≡ m.state

terminal-stays : (a b : State) → is_terminal a ≡ true → reaches a b ≡ true → b ≡ a
terminal-stays State.queued b t r = absurd (ground arith)
terminal-stays State.delivering b t r = absurd (ground arith)
terminal-stays State.deferred b t r = absurd (ground arith)
terminal-stays State.delivered b t r = sym (same_state-eq State.delivered b r)
terminal-stays State.failed b t r = sym (same_state-eq State.failed b r)
terminal-stays State.acknowledged b t r = sym (same_state-eq State.acknowledged b r)
terminal-stays State.refused b t r = sym (same_state-eq State.refused b r)

Evolves-Ended :
    (m : Message) (ms ns : List Message)
    → Evolves ms ns
    → In m ms
    → is_terminal m.state ≡ true
    → Ended m ns
Evolves-Ended m [] ns e i t = absurd i
Evolves-Ended m (x ∷ ms) [] e i t = absurd e
Evolves-Ended m (x ∷ ms) (n ∷ ns) (step, rest) (inl q) t = record {
  row = n;
  row_in = inl refl;
  id = rw q step.id;
  public_id = rw q step.public_id;
  body = rw q step.body;
  state = rw q (terminal-stays x.state n.state (rw (sym q) t) step.state);
}
Evolves-Ended m (x ∷ ms) (n ∷ ns) (step, rest) (inr i) t =
    let e = Evolves-Ended m ms ns rest i t in
    record {
      row = e.row;
      row_in = inr e.row_in;
      id = e.id;
      public_id = e.public_id;
      body = e.body;
      state = e.state;
    }

-- A message that was delivered, failed, acknowledged or refused in a sound store is still in that
-- state, with its text, after any run of the writes that delete no message.
pub run-Ended :
    (draws : ℕ → Option String) (calls : List (ℕ × Call)) (s : Store) (m : Message)
    → IsSound s
    → In m s.messages
    → is_terminal m.state ≡ true
    → Ended m (run draws calls s).messages
run-Ended draws calls s m sound i t =
    Evolves-Ended m s.messages (run draws calls s).messages (run-Evolves draws calls s sound) i t
