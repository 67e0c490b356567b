-- ===== src/Mailman/Attempt/Parks.antt =====
-- Probes that find no pane, one after the other for the same message, back off and then park.
use tmux_tell.Common.{
  ℕ, zero, suc, ◌+◌, ◌<◌, ◌≤◌, false, some, ◌≡◌, refl, ap, ◌∙◌, arith, if_cases, if◌then◌else◌,
  str_eq, eq_refl, eq_iff, ltb, leb, ◌&&◌, ◌==◌,
}
use tmux_tell.Gate.{PaneState}
use tmux_tell.Store.Tables.{Message, Store}
use tmux_tell.Store.Claim.{recover_delivering}
use tmux_tell.Mailman.Backoff.{pane_not_found_backoff}
use tmux_tell.Mailman.Attempt.{
  ServeOpts, LoopVars, Verdict, Prepared, ProbeFailure, pre_paste_check, on_pane_gone,
  count_pane_fail,
}

-- The verdict of the probe after n others that failed the same way.
abbrev pub after_fails : ServeOpts → PaneState → Message → ℕ → LoopVars → Store → Prepared
after_fails o st m zero v s = pre_paste_check o st (some ProbeFailure.pane_gone) m v s
after_fails o st m (suc n) v s =
    let r = pre_paste_check o st (some ProbeFailure.pane_gone) m v s in
    after_fails o st m n r.vars r.store

-- The streak of the message stands at n.
abbrev HasFails : Message → ℕ → LoopVars → Type 0
HasFails m n v = (count_pane_fail m.public_id v).consecutive_pane_fails ≡ suc n

count_pane_fail-id :
    (m : Message) (v : LoopVars) → (count_pane_fail m.public_id v).pane_fail_msg_id ≡ m.public_id
count_pane_fail-id m v = ground (arith, eq_iff m.public_id v.pane_fail_msg_id)

count_pane_fail-HasFails :
    (m : Message) (n : ℕ) (w : LoopVars)
    → w.pane_fail_msg_id ≡ m.public_id
    → w.consecutive_pane_fails ≡ n
    → HasFails m n w
count_pane_fail-HasFails m n w e c = rw (e, eq_refl m.public_id) (omega arith)

-- What the check of a missing pane decides, the streak at n.
abbrev Backs : Message → ℕ → Prepared → Type 0
Backs m n r =
    (r.verdict ≡ Verdict.retries_after (pane_not_found_backoff (suc n))) × HasFails m (suc n) r.vars

module _ (o : ServeOpts) (st : PaneState) (m : Message)
    (on : o.pre_paste_safety_disabled ≡ false) where
  on_pane_gone-Backs :
      (n : ℕ) (v : LoopVars) (s : Store)
      → HasFails m n v
      → suc n < o.stuck_threshold
      → Backs m n (on_pane_gone o m v s)
  unfolding on_pane_gone
  on_pane_gone-Backs n v s h l =
      let w = count_pane_fail m.public_id v in
      if_cases (Backs m n)
        (ltb 0 o.stuck_threshold && leb o.stuck_threshold w.consecutive_pane_fails)
        (λ t. absurd (ground arith))
        (λ _. (
          ap (λ (k : ℕ). Verdict.retries_after (pane_not_found_backoff k)) h,
          count_pane_fail-HasFails m (suc n) w (count_pane_fail-id m v) h,
        ))

  retry_check :
      (n : ℕ) (v : LoopVars) (s : Store)
      → HasFails m n v
      → suc n < o.stuck_threshold
      → Backs m n (pre_paste_check o st (some ProbeFailure.pane_gone) m v s)
  unfolding pre_paste_check
  retry_check n v s h l =
      if_cases (Backs m n) o.pre_paste_safety_disabled (λ t. absurd (ground arith))
        (λ _. on_pane_gone-Backs n v (recover_delivering o.agent s).1 h l)

  on_pane_gone-parks :
      (n : ℕ) (v : LoopVars) (s : Store)
      → HasFails m n v
      → 0 < o.stuck_threshold
      → o.stuck_threshold ≤ suc n
      → (on_pane_gone o m v s).verdict ≡ Verdict.parks
  unfolding on_pane_gone
  on_pane_gone-parks n v s h p l =
      let w = count_pane_fail m.public_id v in
      if_cases (λ (r : Prepared). r.verdict ≡ Verdict.parks)
        (ltb 0 o.stuck_threshold && leb o.stuck_threshold w.consecutive_pane_fails) (λ _. refl)
        (λ f. absurd (ground arith))

  park_check :
      (n : ℕ) (v : LoopVars) (s : Store)
      → HasFails m n v
      → 0 < o.stuck_threshold
      → o.stuck_threshold ≤ suc n
      → (pre_paste_check o st (some ProbeFailure.pane_gone) m v s).verdict ≡ Verdict.parks
  unfolding pre_paste_check
  park_check n v s h p l =
      if_cases (λ (r : Prepared). r.verdict ≡ Verdict.parks) o.pre_paste_safety_disabled
        (λ t. absurd (ground arith))
        (λ _. on_pane_gone-parks n v (recover_delivering o.agent s).1 h p l)

  fails_back :
      (j n : ℕ) (v : LoopVars) (s : Store)
      → HasFails m n v
      → suc (n + j) < o.stuck_threshold
      → (after_fails o st m j v s).verdict
        ≡ Verdict.retries_after (pane_not_found_backoff (suc (n + j)))
  fails_back zero n v s h l =
      let (a, b) = retry_check n v s h (omega arith) in
      a ∙ ap (λ (k : ℕ). Verdict.retries_after (pane_not_found_backoff k)) (omega arith)
  fails_back (suc j) n v s h l =
      let (a, b) = retry_check n v s h (omega arith) in
      let r = pre_paste_check o st (some ProbeFailure.pane_gone) m v s in
      fails_back j (suc n) r.vars r.store b (omega arith)
      ∙ ap (λ (k : ℕ). Verdict.retries_after (pane_not_found_backoff k)) (omega arith)

  fails_park :
      (j n : ℕ) (v : LoopVars) (s : Store)
      → HasFails m n v
      → o.stuck_threshold ≡ suc (n + j)
      → (after_fails o st m j v s).verdict ≡ Verdict.parks
  fails_park zero n v s h l = park_check n v s h (omega arith) (omega arith)
  fails_park (suc j) n v s h l =
      let (a, b) = retry_check n v s h (omega arith) in
      let r = pre_paste_check o st (some ProbeFailure.pane_gone) m v s in
      fails_park j (suc n) r.vars r.store b (omega arith)

-- Where each probe for a message finds no pane and no earlier probe for it failed so: probe number j + 1
-- is followed by the backoff of j + 1 failures while j + 1 is below the threshold, and the probe whose
-- number is the threshold parks the mailman.
pub after_fails-Parks :
    (o : ServeOpts) (st : PaneState) (m : Message) (v : LoopVars) (s : Store) (j : ℕ)
    → o.pre_paste_safety_disabled ≡ false
    → str_eq m.public_id v.pane_fail_msg_id ≡ false
    → suc j ≤ o.stuck_threshold
    → (after_fails o st m j v s).verdict ≡ (
        if suc j == o.stuck_threshold
        then Verdict.parks
        else Verdict.retries_after (pane_not_found_backoff (suc j)))
after_fails-Parks o st m v s j on new l =
    let start : HasFails m 0 v = ground arith in
    if_cases (λ (w : Verdict). (after_fails o st m j v s).verdict ≡ w) (suc j == o.stuck_threshold)
      (λ t. fails_park o st m on j 0 v s start (ground arith))
      (λ f.
        fails_back o st m on j 0 v s start (ground arith)
        ∙ ap (λ (k : ℕ). Verdict.retries_after (pane_not_found_backoff (suc k))) (omega arith))
