-- ===== src/Store/Backlog/Acknowledge.antt =====
-- Acknowledgements: a second one of the same message changes nothing, and a sweep of stale rows takes
-- just those that the dry run counts.
use tmux_tell.Common.{
  ◌<◌, String, true, false, ◌≡◌, refl, arith, count_rows, update_rows, count_rows-cleared,
  count_rows-moved, ltb, if_cases,
}
use tmux_tell.Names.{canonical_name}
use tmux_tell.Store.Tables.{State, Store, Result, ok}
use tmux_tell.Store.Claim.{with_state}
use tmux_tell.Store.Backlog.{
  ackable, acknowledged_as, mark_acknowledged, stale_queued, count_stale_queued, ack_stale_queued,
}

settled :
    (to i : String) (t : Store)
    → count_rows (ackable (canonical_name to) i) t.messages ≡ 0
    → 0 < count_rows (acknowledged_as (canonical_name to) i) t.messages
    → mark_acknowledged to i t ≡ (ok tt, t)
unfolding mark_acknowledged
settled to i t a b =
    let x : ltb 0 (count_rows (ackable (canonical_name to) i) t.messages) ≡ false = ground arith in
    let y : ltb 0 (count_rows (acknowledged_as (canonical_name to) i) t.messages) ≡ true =
      ground arith in
    rw (x, y) refl

abbrev Repeats : String → String → Result (Unit {0}) × Store → Type 0
Repeats to i x = x.0 ≡ ok tt → mark_acknowledged to i x.1 ≡ (ok tt, x.1)

-- Acknowledging a message again, after it was acknowledged, succeeds and leaves the store as it is.
pub mark_acknowledged_idem :
    (to i : String) (s : Store)
    → (mark_acknowledged to i s).0 ≡ ok tt
    → mark_acknowledged to i (mark_acknowledged to i s).1 ≡ (ok tt, (mark_acknowledged to i s).1)
unfolding mark_acknowledged
mark_acknowledged_idem to i s =
    let p = ackable (canonical_name to) i in
    let q = acknowledged_as (canonical_name to) i in
    let f = with_state State.acknowledged in
    if_cases (Repeats to i) (ltb 0 (count_rows p s.messages))
      (λ t h.
        settled to i (record s { messages = update_rows p f s.messages })
          (count_rows-cleared p f s.messages (λ m h. ground arith))
          (ground
            (arith, count_rows-moved p q f s.messages (λ m h. ground arith) (λ m h. ground arith))))
      (λ n.
        if_cases (Repeats to i) (ltb 0 (count_rows q s.messages))
          (λ t h. settled to i s (ground arith) (ground arith)) (λ t h. absurd (ground arith)))

pub record Acknowledges (to : String) (s : Store) : Type 0 where
  pub number : (ack_stale_queued to s).0 ≡ count_stale_queued to s
  pub none_left : count_stale_queued to (ack_stale_queued to s).1 ≡ 0

-- A sweep of stale rows takes as many as the dry run counts, and a dry run after it counts none.
pub ack_stale_queued-Acknowledges : (to : String) (s : Store) → Acknowledges to s
unfolding ack_stale_queued count_stale_queued
ack_stale_queued-Acknowledges to s = record {
  number = refl;
  none_left =
      count_rows-cleared (stale_queued (canonical_name to)) (with_state State.acknowledged)
        s.messages (λ m h. ground arith);
}
