-- ===== src/Store/Insert/Growth/Calls.antt =====
-- `Grows` for each insert operation.
use tmux_tell.Common.{
  ℕ, String, Bool, Option, none, some, ◌≡◌, refl, ap, ◌∙◌, Option-cases, if_cases, str_eq, inl, inr,
}
use tmux_tell.Store.Tables.{Store, CapError, Result, ok, err}
use tmux_tell.Store.Insert.{
  InsertParams, InsertResult, canonical_params, uncapped, check_caps_in_tx, validate_insert_params,
  validate_reply_to,
}
use tmux_tell.Store.Insert.Attempts.{queued_row, refused_row, insert_one_in_tx, insert_refused_row}
use tmux_tell.Store.Insert.Operations.{
  ring, ring_if_queued, commit_one, with_first, with_second, linked, uncapped_if_deferred,
  first_error, insert_checked, insert_message, insert_notice, insert_pair_checked,
  insert_message_pair, pair_error,
}
use tmux_tell.Store.Insert.Outcomes.{
  Placed, insert_one_in_tx-Placed, Recorded, insert_refused_row-Recorded,
}
use tmux_tell.Store.Insert.Growth.{Grows, same, row}

-- What touches no table goes unnoticed.
follow :
    {s t u : Store}
    → Grows s t
    → u.messages ≡ t.messages
    → u.next_id ≡ t.next_id
    → u.agents ≡ t.agents
    → Grows s u
follow (same m n a) m' n' a' = same (m' ∙ m) (n' ∙ n) (a' ∙ a)
follow (row m g f e n a) m' n' a' = row m g f (m' ∙ e) (n' ∙ n) (a' ∙ a)

Grows_refl : (s : Store) → Grows s s
Grows_refl s = same refl refl refl

ringing-Grows : {s t : Store} (p : InsertParams) → Grows s t → Grows s (ring_if_queued p t)
ringing-Grows {s} {t} p g =
    if_cases (Grows s) (str_eq p.deliver_after "") (λ _. follow g refl refl refl) (λ _. g)

module _ (draws : ℕ → Option String) (now : ℕ) where
  Placed-Grows :
      {s : Store} (p : InsertParams) (t : Store) (x : Result InsertResult × Store)
      → Grows s t
      → Placed draws p now t x
      → Grows s x.1
  Placed-Grows p t (ok r, u) g ((k, e), f, d) =
      row (queued_row p now r.public_id) g f (ap (λ (w : Store). w.messages) e)
        (ap (λ (w : Store). w.next_id) e) (ap (λ (w : Store). w.agents) e)
  Placed-Grows p t (err x, u) g (k, e) =
      follow g (ap (λ (w : Store). w.messages) e) (ap (λ (w : Store). w.next_id) e)
        (ap (λ (w : Store). w.agents) e)

  Recorded-Grows :
      (p : InsertParams) (e : CapError) (s t : Store) (x : Option String × Store)
      → Grows s t
      → Recorded draws p e now t x
      → Grows s x.1
  Recorded-Grows p e s t (none, u) g (k, q) =
      follow g (ap (λ (w : Store). w.messages) q) (ap (λ (w : Store). w.next_id) q)
        (ap (λ (w : Store). w.agents) q)
  Recorded-Grows p e s t (some i, u) g ((k, q), f) =
      row (refused_row p e now i) g f (ap (λ (w : Store). w.messages) q)
        (ap (λ (w : Store). w.next_id) q) (ap (λ (w : Store). w.agents) q)

  refused-Grows :
      (p : InsertParams) (e : CapError) (s t : Store)
      → Grows s t
      → Grows s (insert_refused_row draws p e now t).1
  refused-Grows p e s t g =
      Recorded-Grows p e s t (insert_refused_row draws p e now t) g
        (insert_refused_row-Recorded draws p e now t)

  commit_one-Grows :
      (p : InsertParams) (finish : Store → Store) (s : Store) (x : Result InsertResult × Store)
      → ((t : Store) → Grows s t → Grows s (finish t))
      → Placed draws p now s x
      → Grows s (commit_one finish s x).1
  unfolding commit_one
  commit_one-Grows p finish s (ok r, t) fin h = fin t (Placed-Grows p s (ok r, t) (Grows_refl s) h)
  commit_one-Grows p finish s (err e, t) fin h = same refl refl refl

  checked-Grows : (p : InsertParams) (s : Store) → Grows s (insert_checked draws now p s).1
  unfolding insert_checked
  checked-Grows p s = elim (Option-cases (check_caps_in_tx p 1 s)) [
    | inl within ↦
        rw (within, insert_checked)
          (commit_one-Grows p (ring_if_queued p) s (insert_one_in_tx draws p now s)
            (λ t g. ringing-Grows p g) (insert_one_in_tx-Placed draws p now s))
    | inr (e, over) ↦ rw (over, insert_checked) (refused-Grows p e s s (Grows_refl s))
  ]

  pub insert_message-Grows :
      (params : InsertParams) (s : Store) → Grows s (insert_message draws now params s).1
  unfolding insert_message
  insert_message-Grows params s =
      let p = canonical_params params in
      elim (Option-cases
        (first_error (validate_insert_params p) (validate_reply_to p.reply_to s))) [
          | inl fine ↦ rw (fine, insert_message) (checked-Grows (uncapped_if_deferred p) s)
          | inr (e, bad) ↦ rw (bad, insert_message) (Grows_refl s)
        ]

  pub insert_notice-Grows :
      (params : InsertParams) (s : Store) → Grows s (insert_notice draws now params s).1
  unfolding insert_notice
  insert_notice-Grows params s =
      let p = canonical_params params in
      elim (Option-cases
        (first_error (validate_insert_params p) (validate_reply_to p.reply_to s))) [
          | inl fine ↦
              rw (fine, insert_notice)
                (commit_one-Grows (uncapped p) (ring p.to_agent) s
                  (insert_one_in_tx draws (uncapped p) now s) (λ t g. follow g refl refl refl)
                  (insert_one_in_tx-Placed draws (uncapped p) now s))
          | inr (e, bad) ↦ rw (bad, insert_notice) (Grows_refl s)
        ]

  with_second-Grows :
      (p2 : InsertParams) (finish : Store → Store) (s t : Store) (r1 : InsertResult)
      (x : Result InsertResult × Store)
      → ((u : Store) → Grows s u → Grows s (finish u))
      → Grows s t
      → Placed draws p2 now t x
      → Grows s (with_second finish s r1 x).1
  with_second-Grows p2 finish s t r1 (ok r2, u) fin g h = fin u (Placed-Grows p2 t (ok r2, u) g h)
  with_second-Grows p2 finish s t r1 (err e, u) fin g h = same refl refl refl

  with_first-Grows :
      (link : Bool) (p1 p2 : InsertParams) (finish : Store → Store) (s : Store)
      (x : Result InsertResult × Store)
      → ((u : Store) → Grows s u → Grows s (finish u))
      → Placed draws p1 now s x
      → Grows s (with_first draws now link p2 finish s x).1
  with_first-Grows link p1 p2 finish s (ok r1, t) fin h =
      with_second-Grows (linked link p2 r1.public_id) finish s t r1 _ fin
        (Placed-Grows p1 s (ok r1, t) (Grows_refl s) h)
        (insert_one_in_tx-Placed draws (linked link p2 r1.public_id) now t)
  with_first-Grows link p1 p2 finish s (err e, t) fin h = same refl refl refl

  pair_checked-Grows :
      (p1 p2 : InsertParams) (link : Bool) (s : Store)
      → Grows s (insert_pair_checked draws now p1 p2 link s).1
  unfolding insert_pair_checked
  pair_checked-Grows p1 p2 link s = elim (Option-cases (check_caps_in_tx p1 2 s)) [
    | inl within ↦
        rw (within, insert_pair_checked)
          (with_first-Grows link p1 p2 (ring_if_queued p1) s (insert_one_in_tx draws p1 now s)
            (λ t g. ringing-Grows p1 g) (insert_one_in_tx-Placed draws p1 now s))
    | inr (e, over) ↦
        rw (over, insert_pair_checked)
          (refused-Grows p2 e s _ (refused-Grows p1 e s s (Grows_refl s)))
  ]

  pub insert_message_pair-Grows :
      (p1 p2 : InsertParams) (link : Bool) (s : Store)
      → Grows s (insert_message_pair draws now p1 p2 link s).1
  unfolding insert_message_pair
  insert_message_pair-Grows p1 p2 link s =
      elim (Option-cases (pair_error link (canonical_params p1) (canonical_params p2) s)) [
        | inl fine ↦
            rw (fine, insert_message_pair)
              (pair_checked-Grows (canonical_params p1) (canonical_params p2) link s)
        | inr (e, bad) ↦ rw (bad, insert_message_pair) (Grows_refl s)
      ]
