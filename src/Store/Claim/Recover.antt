-- ===== src/Store/Claim/Recover.antt =====
-- `RecoverDelivering`: what was in flight when the mailman stopped is queued again.
use tmux_tell.Common.{
  ◌+◌, String, ◌≡◌, refl, arith, count_rows, count_rows-cleared, count_rows-moved,
}
use tmux_tell.Names.{canonical_name}
use tmux_tell.Store.Tables.{State, Store}
use tmux_tell.Store.Insert.{queue_depth, queued_to}
use tmux_tell.Store.Claim.{delivering_to, recover_delivering, with_state}

pub record Recovers (to : String) (s : Store) : Type 0 where
  pub number :
      (recover_delivering to s).0 ≡ count_rows (delivering_to (canonical_name to)) s.messages
  pub none_left :
      count_rows (delivering_to (canonical_name to)) (recover_delivering to s).1.messages ≡ 0
  pub queued :
      queue_depth (canonical_name to) (recover_delivering to s).1
      ≡ queue_depth (canonical_name to) s + (recover_delivering to s).0

-- Recovery returns the number of the agent's messages in flight, leaves none in flight, and makes the
-- agent's queue longer by just that number.
pub recover_delivering-Recovers : (to : String) (s : Store) → Recovers to s
unfolding recover_delivering queue_depth
recover_delivering-Recovers to s =
    let a = canonical_name to in
    record {
      number = refl;
      none_left =
          count_rows-cleared (delivering_to a) (with_state State.queued) s.messages
            (λ m h. ground arith);
      queued =
          count_rows-moved (delivering_to a) (queued_to a) (with_state State.queued) s.messages
            (λ m h. ground arith) (λ m h. ground arith);
    }
