-- ===== src/Store/Insert/Caps.antt =====
-- What a single insert does to the queue depths, and the caps.
use tmux_tell.Common.{
  ℕ, ◌+◌, ◌≤◌, ◌<◌, String, true, false, Option, none, [], ◌∷◌, ◌≡◌, refl, ◌⊎◌, inl, inr, ap, ◌∙◌,
  sym, subst, arith, Bool-cases, ltb→lt, Option-cases, if_cases, if◌then◌else◌, str_eq, eq_iff,
  eq_refl, ◌≢◌, count_rows, count_rows-append, ltb,
}
use tmux_tell.Store.Tables.{Message, Store, Result, ok, err}
use tmux_tell.Store.Insert.{
  InsertParams, InsertResult, canonical_params, queue_depth, pair_backlog, queued_to,
  queued_from_to, check_caps_in_tx, effective_cap, validate_insert_params, validate_reply_to,
}
use tmux_tell.Store.Insert.Attempts.{append_row, queued_row, insert_one_in_tx}
use tmux_tell.Store.Insert.Operations.{
  uncapped_if_deferred, first_error, ring_if_queued, commit_one, insert_checked, insert_message,
}
use tmux_tell.Store.Insert.Outcomes.{redrawn, Fresh, Placed, insert_one_in_tx-Placed}

-- A row in the queue of its recipient, and how it counts.
pub queue_depth-append_row :
    (to : String) (m : Message) (s : Store)
    → queue_depth to (append_row m s) ≡ queue_depth to s + (if queued_to to m then 1 else 0)
unfolding queue_depth
queue_depth-append_row to m s =
    count_rows-append (queued_to to) s.messages (record m { id = s.next_id } ∷ [])
    ∙ ap (λ (n : ℕ). count_rows (queued_to to) s.messages + n) (ground arith)

pub pair_backlog-append_row :
    (from to : String) (m : Message) (s : Store)
    → pair_backlog from to (append_row m s)
      ≡ pair_backlog from to s + (if queued_from_to from to m then 1 else 0)
unfolding pair_backlog
pair_backlog-append_row from to m s =
    count_rows-append (queued_from_to from to) s.messages (record m { id = s.next_id } ∷ [])
    ∙ ap (λ (n : ℕ). count_rows (queued_from_to from to) s.messages + n) (ground arith)

-- A successful insert: the row, its number of predecessors, and the doorbell.
pub record Inserted (now : ℕ) (p : InsertParams) (s : Store) (r : InsertResult) (t : Store)
    : Type 0 where
  pub drawn : ℕ
  pub store_eq : t ≡ ring_if_queued p (append_row (queued_row p now r.public_id) (redrawn s drawn))
  pub fresh : Fresh (queued_row p now r.public_id) s
  pub queued_eq : r.queued ≡ queue_depth p.to_agent t
  pub within : check_caps_in_tx p 1 s ≡ none

queue_depth-ring :
    (p : InsertParams) (to : String) (s : Store)
    → queue_depth to (ring_if_queued p s) ≡ queue_depth to s
unfolding queue_depth
queue_depth-ring p to s =
    if_cases
      (λ (t : Store). count_rows (queued_to to) t.messages ≡ count_rows (queued_to to) s.messages)
      (str_eq p.deliver_after "") (λ _. refl) (λ _. refl)

pair_backlog-ring :
    (p : InsertParams) (from to : String) (s : Store)
    → pair_backlog from to (ring_if_queued p s) ≡ pair_backlog from to s
unfolding pair_backlog
pair_backlog-ring p from to s =
    if_cases
      (λ (t : Store).
        count_rows (queued_from_to from to) t.messages
        ≡ count_rows (queued_from_to from to) s.messages)
      (str_eq p.deliver_after "") (λ _. refl) (λ _. refl)

pub queue_depth-redrawn :
    (to : String) (s : Store) (k : ℕ) → queue_depth to (redrawn s k) ≡ queue_depth to s
unfolding queue_depth
queue_depth-redrawn to s k = refl

pair_backlog-redrawn :
    (from to : String) (s : Store) (k : ℕ)
    → pair_backlog from to (redrawn s k) ≡ pair_backlog from to s
unfolding pair_backlog
pair_backlog-redrawn from to s k = refl

other_row :
    (now : ℕ) (p : InsertParams) (to i : String)
    → to ≢ p.to_agent
    → queued_to to (queued_row p now i) ≡ false
unfolding queued_row
other_row now p to i ne = ground (arith, eq_iff p.to_agent to)

module _ (draws : ℕ → Option String) (now : ℕ) where
  commit_one-ok :
      (p : InsertParams) (s : Store) (x : Result InsertResult × Store) (r : InsertResult)
      (t : Store)
      → check_caps_in_tx p 1 s ≡ none
      → Placed draws p now s x
      → commit_one (ring_if_queued p) s x ≡ (ok r, t)
      → Inserted now p s r t
  unfolding commit_one
  commit_one-ok p s (ok q, u) r t within ((k, e), f, d) h =
      let same_r : q ≡ r = cc in
      let same_t : ring_if_queued p u ≡ t = cc in
      rw (← same_r, ← same_t)
        (record {
          drawn = k;
          store_eq = ap (ring_if_queued p) e;
          fresh = f;
          queued_eq = d ∙ sym (queue_depth-ring p p.to_agent u);
          within = within;
        })
  commit_one-ok p s (err e, u) r t within d h = cc

  pub insert_checked-ok :
      (p : InsertParams) (s : Store) (r : InsertResult) (t : Store)
      → insert_checked draws now p s ≡ (ok r, t)
      → Inserted now p s r t
  unfolding insert_checked
  insert_checked-ok p s r t h = elim (Option-cases (check_caps_in_tx p 1 s)) [
    | inl within ↦
        commit_one-ok p s (insert_one_in_tx draws p now s) r t within
          (insert_one_in_tx-Placed draws p now s) (rw (within, insert_checked) at h)
    | inr (e, over) ↦ cc (rw (over, insert_checked) at h)
  ]

  pub insert_message-ok :
      (params : InsertParams) (s : Store) (r : InsertResult) (t : Store)
      → insert_message draws now params s ≡ (ok r, t)
      → Inserted now (uncapped_if_deferred (canonical_params params)) s r t
  unfolding insert_message
  insert_message-ok params s r t h =
      let p = canonical_params params in
      elim (Option-cases
        (first_error (validate_insert_params p) (validate_reply_to p.reply_to s))) [
          | inl fine ↦
              insert_checked-ok (uncapped_if_deferred p) s r t (rw (fine, insert_message) at h)
          | inr (e, bad) ↦ cc (rw (bad, insert_message) at h)
        ]

-- How an accepted row counts, for every recipient and pair.
pub depth_after :
    (now : ℕ) (p : InsertParams) (s : Store) (r : InsertResult) (t : Store) (to : String)
    → Inserted now p s r t
    → queue_depth to t
      ≡ queue_depth to s + (if queued_to to (queued_row p now r.public_id) then 1 else 0)
depth_after now p s r t to i =
    ap (queue_depth to) i.store_eq
    ∙ queue_depth-ring p to (append_row (queued_row p now r.public_id) (redrawn s i.drawn))
    ∙ queue_depth-append_row to (queued_row p now r.public_id) (redrawn s i.drawn)
    ∙ ap (λ (n : ℕ). n + (if queued_to to (queued_row p now r.public_id) then 1 else 0))
        (queue_depth-redrawn to s i.drawn)

backlog_after :
    (now : ℕ) (p : InsertParams) (s : Store) (r : InsertResult) (t : Store) (from to : String)
    → Inserted now p s r t
    → pair_backlog from to t
      ≡ pair_backlog from to s
        + (if queued_from_to from to (queued_row p now r.public_id) then 1 else 0)
backlog_after now p s r t from to i =
    ap (pair_backlog from to) i.store_eq
    ∙ pair_backlog-ring p from to (append_row (queued_row p now r.public_id) (redrawn s i.drawn))
    ∙ pair_backlog-append_row from to (queued_row p now r.public_id) (redrawn s i.drawn)
    ∙ ap (λ (n : ℕ). n + (if queued_from_to from to (queued_row p now r.public_id) then 1 else 0))
        (pair_backlog-redrawn from to s i.drawn)

plain_row-queued :
    (now : ℕ) (p : InsertParams) (i : String)
    → str_eq p.deliver_after "" ≡ true
    → (queued_to p.to_agent (queued_row p now i) ≡ true)
      × (queued_from_to p.from_agent p.to_agent (queued_row p now i) ≡ true)
unfolding queued_row
plain_row-queued now p i plain =
    (ground (arith, eq_refl p.to_agent), ground (arith, eq_refl p.to_agent, eq_refl p.from_agent))

-- What a cap check that passes says.
caps_within :
    (p : InsertParams) (added : ℕ) (s : Store)
    → check_caps_in_tx p added s ≡ none
    → (0 < p.max_recipient_queue → queue_depth p.to_agent s + added ≤ effective_cap p s)
      × (0 < p.max_sender_backlog
          → pair_backlog p.from_agent p.to_agent s + added ≤ p.max_sender_backlog)
unfolding check_caps_in_tx
caps_within p added s h = (λ a. ground arith, λ a. ground arith)

-- What an accepted insert that is not deferred does to the queue.
pub record Admitted (p : InsertParams) (s : Store) (r : InsertResult) (t : Store) : Type 0 where
  pub one_more : queue_depth p.to_agent t ≡ queue_depth p.to_agent s + 1
  pub reported : r.queued ≡ queue_depth p.to_agent t
  pub recipient_cap : (p.max_recipient_queue ≡ 0) ⊎ (queue_depth p.to_agent t ≤ effective_cap p s)
  pub sender_cap :
      (p.max_sender_backlog ≡ 0) ⊎ (pair_backlog p.from_agent p.to_agent t ≤ p.max_sender_backlog)
  pub others : (to : String) → to ≢ p.to_agent → queue_depth to t ≡ queue_depth to s

Inserted-Admitted :
    (now : ℕ) (p : InsertParams) (s : Store) (r : InsertResult) (t : Store)
    → Inserted now p s r t
    → str_eq p.deliver_after "" ≡ true
    → Admitted p s r t
Inserted-Admitted now p s r t i plain =
    let (q1, q2) = plain_row-queued now p r.public_id plain in
    let (c1, c2) = caps_within p 1 s i.within in
    let d = depth_after now p s r t p.to_agent i in
    let b = backlog_after now p s r t p.from_agent p.to_agent i in
    record {
      one_more = ground (arith);
      reported = i.queued_eq;
      recipient_cap = elim (Bool-cases (ltb 0 p.max_recipient_queue)) [
        | inl on ↦ inr (ground (arith, c1 (ltb→lt _ _ on)))
        | inr off ↦ inl (ground arith)
      ];
      sender_cap = elim (Bool-cases (ltb 0 p.max_sender_backlog)) [
        | inl on ↦ inr (ground (arith, c2 (ltb→lt _ _ on)))
        | inr off ↦ inl (ground arith)
      ];
      others =
          λ to ne. ground (arith, depth_after now p s r t to i, other_row now p to r.public_id ne);
    }

-- The cap ceiling: an insert that is accepted, and not deferred, makes the queue of its recipient
-- one longer, reports the new length, and leaves the other queues; with a recipient cap the new
-- length is within the cap, raised to the provider's floor, and with a sender cap the sender's rows
-- for this recipient are within it.
pub insert_message-ceiling :
    (draws : ℕ → Option String) (now : ℕ) (params : InsertParams) (s : Store) (r : InsertResult)
    (t : Store)
    → params.deliver_after ≡ ""
    → insert_message draws now params s ≡ (ok r, t)
    → Admitted (canonical_params params) s r t
insert_message-ceiling draws now params s r t plain h =
    let p = canonical_params params in
    let empty : str_eq p.deliver_after "" ≡ true = (eq_iff p.deliver_after "").1 plain in
    let same : uncapped_if_deferred p ≡ p = rw empty in
    Inserted-Admitted now p s r t
      (subst (λ q. Inserted now q s r t) same (insert_message-ok draws now params s r t h)) empty
