-- ===== src/Examples/Mail.antt =====
-- The store's theorems at `harbor`, and tests of the scheduler.
use tmux_tell.Common.{
  ℕ, ◌<◌, String, true, false, Option, none, some, List, [], ◌∷◌, ◌≡◌, ◌≢◌, refl, ◌⊎◌, inl, inr, In,
  arith, eq_iff, any_row,
}
use tmux_tell.Names.{canonical_name}
use tmux_tell.Store.Tables.{State, Store, CapError, Reason, Error, foreign_key, ok, err}
use tmux_tell.Store.Schedule.{Candidate, max_priority, aged, select_scheduled}
use tmux_tell.Store.Schedule.Levels.{parse_priority, Named, parse_priority-Named}
use tmux_tell.Store.Schedule.Choice.{IsScheduled, select_scheduled-IsScheduled}
use tmux_tell.Store.Insert.{
  InsertParams, canonical_params, check_caps_in_tx, validate_insert_params, validate_reply_to,
  queue_depth, pair_backlog, effective_cap,
}
use tmux_tell.Store.Insert.Attempts.{insert_one_in_tx, queued_row}
use tmux_tell.Store.Insert.Operations.{insert_message, insert_message_pair, uncapped_if_deferred}
use tmux_tell.Store.Insert.Caps.{Admitted, insert_message-ceiling}
use tmux_tell.Store.Insert.Refused.{LeavesRecord, insert_message-rejected}
use tmux_tell.Store.Insert.Atomic.{IsAtomic, insert_message_pair-IsAtomic}
use tmux_tell.Store.Claim.{candidates, claim_next_with_strategy}
use tmux_tell.Store.Claim.Choice.{Claimed, claim_next_with_strategy-Claimed}
use tmux_tell.Store.Claim.Recover.{Recovers, recover_delivering-Recovers}
use tmux_tell.Store.Deliver.{find_dedupe_match, last_row}
use tmux_tell.Store.Deliver.Dedupe.{Deduped, find_dedupe_match-Deduped}
use tmux_tell.Store.Backlog.{mark_acknowledged}
use tmux_tell.Store.Reap.{is_blank, reaches_pane, reap_undeliverable}
use tmux_tell.Store.Reap.Spares.{reap_undeliverable-spares}
use tmux_tell.Store.Reset.{expired_in_states, delete_messages_before}
use tmux_tell.Store.Reset.Whole.{delete_messages_before-blocked}
use tmux_tell.Store.Reset.Takes.{Swept, sweep-Swept}
use tmux_tell.Store.Evolution.{Evolves}
use tmux_tell.Store.Integrity.{IsSound}
use tmux_tell.Store.History.{Call, Sweep, run, sweep}
use tmux_tell.Store.History.Life.{Ended, run-Evolves, run-IsSound, run-Ended}
use tmux_tell.Examples.Data.{draws, harbor, harbor-IsSound, second, third, reply, params}

abbrev waiting : List Candidate
waiting =
    record { id = 3; from_agent = "bosun"; priority = 20 }
    ∷ record { id = 4; from_agent = "pilot"; priority = 20 }
    ∷ record { id = 5; from_agent = "pilot"; priority = 30 }
    ∷ []

-- An urgent message lifts the older one of its sender.
lifted : select_scheduled waiting max_priority ≡ some 4
unfolding select_scheduled
lifted = refl

select_scheduled_example :
    (chosen : ℕ) × (select_scheduled waiting aged ≡ some chosen) × IsScheduled aged waiting chosen
select_scheduled_example =
    select_scheduled-IsScheduled aged (record { id = 3; from_agent = "bosun"; priority = 20 })
      (record { id = 4; from_agent = "pilot"; priority = 20 }
        ∷ record { id = 5; from_agent = "pilot"; priority = 30 }
        ∷ [])

abbrev routine : List Candidate
routine =
    record { id = 8; from_agent = "bosun"; priority = 20 }
    ∷ record { id = 7; from_agent = "pilot"; priority = 20 }
    ∷ []

oldest : select_scheduled routine max_priority ≡ some 7
unfolding select_scheduled
oldest = refl

routine-priority : (d : Candidate) → In d routine → d.priority ≡ 20
routine-priority d (inl e) = rw e refl
routine-priority d (inr (inl e)) = rw e refl
routine-priority d (inr (inr e)) = absurd e

abbrev order : InsertParams
order = params "Bosun" "trim the sails"

sent :
    insert_message draws 50 order harbor
    ≡ (ok (record { public_id = "d0"; queued = 3 }), (insert_message draws 50 order harbor).1)
unfolding insert_message validate_insert_params canonical_name validate_reply_to check_caps_in_tx
    effective_cap queue_depth pair_backlog insert_one_in_tx queued_row
sent = refl

ceiling_example :
    Admitted
      (canonical_params order)
      harbor
      (record { public_id = "d0"; queued = 3 })
      (insert_message draws 50 order harbor).1
ceiling_example =
    insert_message-ceiling draws 50 order harbor (record { public_id = "d0"; queued = 3 })
      (insert_message draws 50 order harbor).1 refl sent

abbrev trigger : String
trigger = "compact"

abbrev later_order : InsertParams
later_order = record order { deliver_after = trigger }

deferred :
    insert_message draws 50 later_order harbor
    ≡ (ok (record { public_id = "d0"; queued = 2 }), (insert_message draws 50 later_order harbor).1)
unfolding insert_message validate_insert_params canonical_name validate_reply_to check_caps_in_tx
    effective_cap queue_depth pair_backlog insert_one_in_tx queued_row
deferred = refl

has_trigger : trigger ≢ ""
has_trigger e = absurd (ground (arith, eq_iff trigger ""))

abbrev capped_order : InsertParams
capped_order = record order { max_recipient_queue = 2 }

over :
    check_caps_in_tx (uncapped_if_deferred (canonical_params capped_order)) 1 harbor
    ≡ some (CapError.recipient_queue_full 2 2 1)
unfolding check_caps_in_tx canonical_name effective_cap queue_depth
over = refl

valid_order : validate_insert_params (canonical_params capped_order) ≡ none
unfolding validate_insert_params canonical_name
valid_order = refl

no_reply : validate_reply_to "" harbor ≡ none
unfolding validate_reply_to
no_reply = refl

rejected_example :
    (handle : Option String) × (t : Store) × (insert_message draws 50 capped_order harbor
      ≡ (err (Error.cap_rejected handle (CapError.recipient_queue_full 2 2 1)), t))
    × LeavesRecord
        (uncapped_if_deferred (canonical_params capped_order))
        (CapError.recipient_queue_full 2 2 1)
        50
        harbor
        handle
        t
rejected_example =
    insert_message-rejected draws 50 capped_order harbor (CapError.recipient_queue_full 2 2 1)
      valid_order no_reply over

pair_example : IsAtomic true harbor (insert_message_pair draws 50 order order true harbor)
pair_example = insert_message_pair-IsAtomic draws 50 order order true harbor

claim_example :
    Claimed "Bosun" max_priority harbor
    ⊎ ((candidates (canonical_name "Bosun") harbor ≡ [])
        × (claim_next_with_strategy "Bosun" max_priority harbor ≡ (ok none, harbor)))
claim_example = claim_next_with_strategy-Claimed "Bosun" max_priority harbor harbor-IsSound

-- The urgent message of the cook goes first.
urgent_claimed :
    (claim_next_with_strategy "Bosun" max_priority harbor).0
    ≡ ok (some (record second { state = State.delivering }))
unfolding claim_next_with_strategy canonical_name select_scheduled candidates
urgent_claimed = refl

recover_example : Recovers "bosun" harbor
recover_example = recover_delivering-Recovers "bosun" harbor

abbrev shift : List (ℕ × Call)
shift =
    (60, Call.claim "bosun" max_priority)
    ∷ (61, Call.delivered "m2")
    ∷ (62, Call.message order)
    ∷ (63, Call.verified "m3")
    ∷ []

history_example : Evolves harbor.messages (run draws shift harbor).messages
history_example = run-Evolves draws shift harbor harbor-IsSound

sound_example : IsSound (run draws shift harbor)
sound_example = run-IsSound draws shift harbor harbor-IsSound

finished_example : Ended third (run draws shift harbor).messages
finished_example = run-Ended draws shift harbor third harbor-IsSound (inr (inr (inl refl))) refl

purge_example :
    Swept
      (Sweep.in_states "" (State.queued ∷ []))
      harbor
      (sweep (Sweep.in_states "" (State.queued ∷ [])) harbor)
      second
purge_example =
    sweep-Swept (Sweep.in_states "" (State.queued ∷ [])) harbor second harbor-IsSound
      (inr (inl refl))

expired : expired_in_states (canonical_name "bosun") 40 (State.delivered ∷ []) third ≡ true
unfolding canonical_name
expired = refl

not_expired : expired_in_states (canonical_name "bosun") 40 (State.delivered ∷ []) reply ≡ false
unfolding canonical_name
not_expired = refl

blocked_example :
    delete_messages_before "bosun" (some 40) (State.delivered ∷ []) harbor
    ≡ (err foreign_key, harbor)
blocked_example =
    delete_messages_before-blocked "bosun" 40 State.delivered [] harbor third reply
      (inr (inr (inl refl))) expired (inr (inr (inr (inl refl)))) not_expired refl

reached : any_row (reaches_pane "pilot") harbor.agents ≡ true
unfolding is_blank
reached = refl

spares_example : In reply (reap_undeliverable "" 90 (Reason.text "no pane") 99 harbor).1.messages
spares_example =
    reap_undeliverable-spares "" 90 (Reason.text "no pane") 99 harbor reply
      (inr (inr (inr (inl refl)))) reached

deep : 1 < queue_depth (canonical_name "bosun") harbor
unfolding canonical_name queue_depth
deep = omega arith

acked : (mark_acknowledged "bosun" "m1" harbor).0 ≡ ok tt
unfolding mark_acknowledged canonical_name
acked = refl

matched : find_dedupe_match "pilot" "bosun" "ahoy" 5 harbor ≡ some third
unfolding find_dedupe_match last_row canonical_name
matched = refl

dedupe_example : Deduped "pilot" "bosun" "ahoy" 5 harbor third
dedupe_example =
    find_dedupe_match-Deduped "pilot" "bosun" "ahoy" 5 harbor third harbor-IsSound matched

high_parsed : parse_priority " HIGH " ≡ some 30
unfolding parse_priority canonical_name
high_parsed = refl

priority_example : Named 30
priority_example = parse_priority-Named " HIGH " 30 high_parsed
