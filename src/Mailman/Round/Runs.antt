-- ===== src/Mailman/Round/Runs.antt =====
-- Runs of rounds: between any two of them nothing is in flight.
use tmux_tell.Common.{
  ℕ, String, Bool, false, Option, List, [], ◌∷◌, ◌≡◌, inl, inr, arith, All, count_rows,
}
use tmux_tell.Names.{canonical_name}
use tmux_tell.Store.Tables.{Store}
use tmux_tell.Store.Evolution.{Evolves, Evolves-refl, Evolves-trans}
use tmux_tell.Store.Integrity.{IsSound}
use tmux_tell.Store.Schedule.{Strategy}
use tmux_tell.Store.Claim.{delivering_to}
use tmux_tell.Mailman.Attempt.{ServeOpts}
use tmux_tell.Mailman.Outcome.{OutcomeOpts}
use tmux_tell.Mailman.Round.{Turn, round, rounds}
use tmux_tell.Mailman.Round.Flight.{Quiet, round-Calm}
use tmux_tell.Mailman.Panes.{PreflightOpts}

-- Where the loop was not canceled, the round left nothing in flight.
calm :
    (to : String) (c : Bool) (t : Store)
    → c ≡ false
    → Quiet to c t
    → count_rows (delivering_to to) t.messages ≡ 0
calm to c t f (inl e) = absurd (ground arith)
calm to c t f (inr z) = z

-- The table after a run: the rows of before, further on in their lives, and none in flight.
pub record Idle (to : String) (s t : Store) : Type 0 where
  pub rows : Evolves s.messages t.messages
  pub sound : IsSound t
  pub none_left : count_rows (delivering_to to) t.messages ≡ 0

module _ (wake_delay : ℕ → ℕ → ℕ) (draws : ℕ → Option String) (binary_name : String) where
  -- From a sound store with nothing in flight to its agent, a mailman whose steps all serve that agent
  -- and that is never canceled in the gate leaves a sound store with nothing in flight after any number
  -- of rounds, each from its claim to its end: whatever the checks before the gate, the gate and the
  -- pastes answer, whether a message is held back, failed for its pane, absorbed as a duplicate or
  -- pasted. No row is lost or moved, and each state changes only along its life.
  pub rounds-Idle :
      (strategy : Strategy) (c : PreflightOpts) (o : ServeOpts) (out : OutcomeOpts)
      (turns : List Turn) (s : Store)
      → out.agent ≡ o.agent
      → IsSound s
      → count_rows (delivering_to (canonical_name out.agent)) s.messages ≡ 0
      → All (λ (t : Turn). t.answers.gate.canceled ≡ false) turns
      → Idle
          (canonical_name out.agent)
          s
          (rounds wake_delay draws binary_name strategy c o out turns s)
  unfolding rounds
  rounds-Idle strategy c o out [] s same sound z free = record {
    rows = Evolves-refl s.messages;
    sound = sound;
    none_left = z;
  }
  rounds-Idle strategy c o out (t ∷ turns) s same sound z (f, free) =
      let u = round wake_delay draws t.now binary_name strategy c o out t.answers t.vars s in
      let (k, q) =
        round-Calm wake_delay draws t.now binary_name strategy c o out t.answers t.vars s same sound
          z in
      let y = calm (canonical_name out.agent) t.answers.gate.canceled u f q in
      let r = rounds-Idle strategy c o out turns u same k.sound y free in
      record {
        rows = Evolves-trans s.messages u.messages _ k.rows r.rows;
        sound = r.sound;
        none_left = r.none_left;
      }
