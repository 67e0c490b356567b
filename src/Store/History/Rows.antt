-- ===== src/Store/History/Rows.antt =====
-- Each call leaves the columns of a message alone, moves its state along its life, and keeps the
-- table sound.
use tmux_tell.Common.{
  ℕ, String, Bool, true, ◌≡◌, refl, inl, inr, arith, if_cases, Bool-cases, In, count_rows, ltb,
  ◌==◌,
}
use tmux_tell.Names.{canonical_name}
use tmux_tell.Store.Tables.{Result, State, Reason, Message, Store, is_state}
use tmux_tell.Store.Evolution.{RowStep, RowStep-to, reaches, reaches_from, reaches_refl}
use tmux_tell.Store.Integrity.{key, IsSound}
use tmux_tell.Store.Insert.{named, queued_to}
use tmux_tell.Store.Moves.{Moves, kept, updated, if-Moves}
use tmux_tell.Store.Schedule.{Strategy}
use tmux_tell.Store.Claim.{
  with_state, eligible, has_id, delivering_to, recover_delivering, claim_next_with_strategy,
}
use tmux_tell.Store.Claim.Choice.{Claimed, claim_next_with_strategy-Claimed, same_id-eq}
use tmux_tell.Store.Deliver.{
  update_or_not_found, in_flight, as_delivered, as_failed, mark_failed, promote_deferred, waits_for,
  mark_verified_by_dedupe, unverified_delivery, as_verified, mark_delivered_core,
}
use tmux_tell.Store.Backlog.{
  acknowledged_as, set_backlog_epoch, mark_acknowledged, mark_acknowledged_batch, ack_stale_queued,
  ackable, residue, stale_queued,
}
use tmux_tell.Store.Reap.{reap_undeliverable, reapable}
use tmux_tell.Store.Reset.{delete_agent}

-- A state that is tested for, and a state that it may become.
to_state :
    (p : Message → Bool) (a b : State)
    → ((m : Message) → p m ≡ true → is_state a m ≡ true)
    → reaches a b ≡ true
    → (m : Message) → p m ≡ true
    → RowStep m (with_state b m)
to_state p a b test r m h =
    RowStep-to refl refl refl refl refl refl refl (reaches_from m a b (test m h) r)

in_flight-state :
    (i : String) (m : Message) → in_flight i m ≡ true → is_state State.delivering m ≡ true
in_flight-state i m h = ground arith

queued-state : (to : String) (m : Message) → queued_to to m ≡ true → is_state State.queued m ≡ true
queued-state to m h = ground arith

eligible-queued :
    (to : String) (n : ℕ) (m : Message) → eligible to n m ≡ true → is_state State.queued m ≡ true
eligible-queued to n m h = ground arith

reapable-queued :
    (agent : String) (n : ℕ) (s : Store) (m : Message)
    → reapable s.agents agent n m ≡ true
    → is_state State.queued m ≡ true
reapable-queued agent n s m h = ground arith

pub claim-Moves :
    (to : String) (strategy : Strategy) (s : Store)
    → IsSound s
    → Moves s (claim_next_with_strategy to strategy s).1
claim-Moves to strategy s sound = elim (claim_next_with_strategy-Claimed to strategy s sound) [
  | inl c ↦
      rw c.claimed
        (updated (has_id c.row.id) (with_state State.delivering) refl refl (λ m. refl) (step c))
  | inr (e, q) ↦ rw q (kept refl refl)
]
  where
    step :
        (c : Claimed to strategy s) (m : Message)
        → In m s.messages
        → has_id c.row.id m ≡ true
        → RowStep m (with_state State.delivering m)
    step c m i h =
        let e = same_id-eq s.messages c.row m sound.ascends c.row_in i (ground arith) in
        let q = eligible-queued _ _ c.row c.receivable in
        RowStep-to refl refl refl refl refl refl refl
          (reaches_from m State.queued State.delivering (rw e q) refl)

pub recover-Moves : (to : String) (s : Store) → Moves s (recover_delivering to s).1
unfolding recover_delivering
recover-Moves to s =
    updated (delivering_to (canonical_name to)) (with_state State.queued) refl refl (λ m. refl)
      (λ m i.
        to_state (delivering_to (canonical_name to)) State.delivering State.queued
          (λ n h. ground arith) refl m)

flight-Moves :
    (i : String) (f : Message → Message) (b : State) (s : Store)
    → ((m : Message) → is_state State.delivering m ≡ true → RowStep m (f m))
    → ((m : Message) → key (f m) ≡ key m)
    → Moves s (update_or_not_found (in_flight i) f s).1
flight-Moves i f b s step keys = elim (Bool-cases (count_rows (in_flight i) s.messages == 0)) [
  | inl none_there ↦ rw none_there (kept refl refl)
  | inr there ↦
      rw there (updated (in_flight i) f refl refl keys (λ m j h. step m (in_flight-state i m h)))
]

pub delivered-Moves :
    (i : String) (now : ℕ) (b : Bool) (s : Store) → Moves s (mark_delivered_core i b now s).1
unfolding mark_delivered_core
delivered-Moves i now b s =
    flight-Moves i (as_delivered b now) State.delivered s
      (λ m h.
        RowStep-to refl refl refl refl refl refl refl
          (reaches_from m State.delivering State.delivered h refl))
      (λ m. refl)

pub failed-Moves :
    (i : String) (reason : Reason) (now : ℕ) (s : Store) → Moves s (mark_failed i reason now s).1
unfolding mark_failed
failed-Moves i reason now s =
    flight-Moves i (as_failed reason now) State.failed s
      (λ m h.
        RowStep-to refl refl refl refl refl refl refl
          (reaches_from m State.delivering State.failed h refl))
      (λ m. refl)

pub verified-Moves : (i : String) (s : Store) → Moves s (mark_verified_by_dedupe i s).1
unfolding mark_verified_by_dedupe
verified-Moves i s = elim (Bool-cases (count_rows (unverified_delivery i) s.messages == 0)) [
  | inl none_there ↦ rw none_there (kept refl refl)
  | inr there ↦ rw there (
      updated (unverified_delivery i) as_verified refl refl (λ m. refl)
        (λ m j h. RowStep-to refl refl refl refl refl refl refl (reaches_refl m.state)))
]

pub promote-Moves : (to trigger : String) (s : Store) → Moves s (promote_deferred to trigger s).1
unfolding promote_deferred
promote-Moves to trigger s =
    let p = waits_for (canonical_name to) trigger in
    let step = to_state p State.deferred State.queued (λ n h. ground arith) refl in
    if-Moves (ltb 0 (count_rows p s.messages))
      (updated p (with_state State.queued) refl refl (λ m. refl) (λ m i. step m))
      (updated p (with_state State.queued) refl refl (λ m. refl) (λ m i. step m))

pub epoch-Moves : (name : String) (n : ℕ) (s : Store) → Moves s (set_backlog_epoch name n s).1
unfolding set_backlog_epoch
epoch-Moves name n s = elim (Bool-cases (count_rows (named (canonical_name name)) s.agents == 0)) [
  | inl e ↦ rw e (kept refl refl)
  | inr e ↦ rw e (kept refl refl)
]

pub acknowledge-Moves : (to i : String) (s : Store) → Moves s (mark_acknowledged to i s).1
unfolding mark_acknowledged
acknowledge-Moves to i s =
    elim (Bool-cases (ltb 0 (count_rows (ackable (canonical_name to) i) s.messages))) [
      | inl e ↦ rw e (
          updated (ackable (canonical_name to) i) (with_state State.acknowledged) refl refl
            (λ m. refl)
            (λ m j.
              to_state (ackable (canonical_name to) i) State.queued State.acknowledged
                (λ n h. ground arith) refl m))
      | inr e ↦ rw e (
          if_cases (λ (x : Result (Unit {0}) × Store). Moves s x.1)
            (ltb 0 (count_rows (acknowledged_as (canonical_name to) i) s.messages))
            (λ _. kept refl refl) (λ _. kept refl refl))
    ]

pub batch-Moves : (to : String) (n : ℕ) (s : Store) → Moves s (mark_acknowledged_batch to n s).1
unfolding mark_acknowledged_batch
batch-Moves to n s =
    if_cases (λ (x : ℕ × Store). Moves s x.1) (n == 0) (λ _. kept refl refl)
      (λ _.
        updated (residue (canonical_name to) n) (with_state State.acknowledged) refl refl
          (λ m. refl)
          (λ m j.
            to_state (residue (canonical_name to) n) State.queued State.acknowledged
              (λ k h. ground arith) refl m))

pub stale-Moves : (to : String) (s : Store) → Moves s (ack_stale_queued to s).1
unfolding ack_stale_queued
stale-Moves to s =
    updated (stale_queued (canonical_name to)) (with_state State.acknowledged) refl refl (λ m. refl)
      (λ m j.
        to_state (stale_queued (canonical_name to)) State.queued State.acknowledged
          (λ n h. ground arith) refl m)

pub reap-Moves :
    (agent : String) (n : ℕ) (r : Reason) (now : ℕ) (s : Store)
    → Moves s (reap_undeliverable agent n r now s).1
unfolding reap_undeliverable
reap-Moves agent n r now s =
    updated (reapable s.agents agent n) (as_failed r now) refl refl (λ m. refl)
      (λ m j h.
        RowStep-to refl refl refl refl refl refl refl
          (reaches_from m State.queued State.failed (reapable-queued agent n s m h) refl))

pub agent-Moves : (name : String) (s : Store) → Moves s (delete_agent name s).1
unfolding delete_agent
agent-Moves name s = kept refl refl
