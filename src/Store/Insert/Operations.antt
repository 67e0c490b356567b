-- ===== src/Store/Insert/Operations.antt =====
-- internal/store/messages.go: `InsertMessage`, `InsertNotice` and `InsertMessagePair`. A transaction
-- that fails leaves the tables as they were; the public ids that it drew stay drawn.
use tmux_tell.Common.{
  ℕ, String, Bool, true, false, Option, none, some, [], ◌∷◌, ◌++◌, ◌&&◌, not, str_eq, if◌then◌else◌,
}
use tmux_tell.Store.Tables.{
  CapError, Store, Error, pair_must_share, link_conflict, cap_rejected, Result, ok, err,
}
use tmux_tell.Store.Insert.{
  InsertParams, InsertResult, canonical_params, uncapped, validate_insert_params, validate_reply_to,
  check_caps_in_tx,
}
use tmux_tell.Store.Insert.Attempts.{insert_one_in_tx, insert_refused_row}

abbrev pub rolled_back : Store → Store → Store
rolled_back before after = record before { drawn = after.drawn }

-- `fireNotify`
abbrev pub ring : String → Store → Store
ring to s = record s { rings = s.rings ++ to ∷ [] }

-- `p.DeliverAfter != ""` turns the caps off.
abbrev pub uncapped_if_deferred : InsertParams → InsertParams
uncapped_if_deferred p = if str_eq p.deliver_after "" then p else uncapped p

-- The first check that fails.
abbrev pub first_error : Option Error → Option Error → Option Error
first_error none e = e
first_error (some e) _ = some e

abbrev pub ring_if_queued : InsertParams → Store → Store
ring_if_queued p s = if str_eq p.deliver_after "" then ring p.to_agent s else s

-- Commit and ring, or roll back.
unfoldable pub commit_one :
    (Store → Store) → Store → Result InsertResult × Store → Result InsertResult × Store
commit_one finish s (err e, t) = (err e, rolled_back s t)
commit_one finish s (ok r, t) = (ok r, finish t)

abbrev pub rejected : {A : Type 0} → CapError → Option String × Store → Result A × Store
rejected e (handle, s) = (err (cap_rejected handle e), s)

abbrev pub PairResult : Type 0
PairResult = Result (InsertResult × InsertResult)

abbrev pub linked : Bool → InsertParams → String → InsertParams
linked true p i = record p { reply_to = i }
linked false p i = p

abbrev pub with_second :
    (Store → Store) → Store → InsertResult → Result InsertResult × Store → PairResult × Store
with_second finish s r1 (err e, t) = (err e, rolled_back s t)
with_second finish s r1 (ok r2, t) = (ok (r1, r2), finish t)

abbrev pub shares : InsertParams → InsertParams → Bool
shares p1 p2 = str_eq p1.from_agent p2.from_agent && str_eq p1.to_agent p2.to_agent

-- The checks of a pair, in order.
abbrev pub pair_error : Bool → InsertParams → InsertParams → Store → Option Error
pair_error link p1 p2 s = first_error (if shares p1 p2 then none else some pair_must_share) (
    first_error (if link && not (str_eq p2.reply_to "") then some link_conflict else none) (
      first_error (validate_insert_params p1) (
        first_error (validate_insert_params p2) (
          first_error (validate_reply_to p1.reply_to s)
            (if link then none else validate_reply_to p2.reply_to s)))))

module _ (draws : ℕ → Option String) (now : ℕ) where
  -- After the checks: the caps, and then the row.
  unfoldable pub insert_checked : InsertParams → Store → Result InsertResult × Store
  unfolding commit_one
  insert_checked p s = elim (check_caps_in_tx p 1 s) [
    | some e ↦ rejected e (insert_refused_row draws p e now s)
    | none ↦ commit_one (ring_if_queued p) s (insert_one_in_tx draws p now s)
  ]

  unfoldable pub insert_message : InsertParams → Store → Result InsertResult × Store
  unfolding insert_checked
  insert_message params s =
      let p = canonical_params params in
      elim (first_error (validate_insert_params p) (validate_reply_to p.reply_to s)) [
        | some e ↦ (err e, s)
        | none ↦ insert_checked (uncapped_if_deferred p) s
      ]

  unfoldable pub insert_notice : InsertParams → Store → Result InsertResult × Store
  unfolding commit_one
  insert_notice params s =
      let p = canonical_params params in
      elim (first_error (validate_insert_params p) (validate_reply_to p.reply_to s)) [
        | some e ↦ (err e, s)
        | none ↦ commit_one (ring p.to_agent) s (insert_one_in_tx draws (uncapped p) now s)
      ]

  abbrev pub with_first :
      Bool
      → InsertParams
      → (Store → Store)
      → Store
      → Result InsertResult × Store
      → PairResult × Store
  with_first link p2 finish s (err e, t) = (err e, rolled_back s t)
  with_first link p2 finish s (ok r1, t) =
      with_second finish s r1 (insert_one_in_tx draws (linked link p2 r1.public_id) now t)

  -- Both refused rows are written; the handle is that of the first.
  abbrev pub rejected_pair : InsertParams → CapError → Option String × Store → PairResult × Store
  rejected_pair p2 e (handle, s) = rejected e (handle, (insert_refused_row draws p2 e now s).1)

  unfoldable pub insert_pair_checked :
      InsertParams → InsertParams → Bool → Store → PairResult × Store
  insert_pair_checked p1 p2 link s = elim (check_caps_in_tx p1 2 s) [
    | some e ↦ rejected_pair p2 e (insert_refused_row draws p1 e now s)
    | none ↦ with_first link p2 (ring_if_queued p1) s (insert_one_in_tx draws p1 now s)
  ]

  unfoldable pub insert_message_pair :
      InsertParams → InsertParams → Bool → Store → PairResult × Store
  unfolding insert_pair_checked
  insert_message_pair params1 params2 link s =
      let p1 = canonical_params params1 in
      let p2 = canonical_params params2 in
      elim (pair_error link p1 p2 s) [
        | some e ↦ (err e, s)
        | none ↦ insert_pair_checked p1 p2 link s
      ]
