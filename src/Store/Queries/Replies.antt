-- ===== src/Store/Queries/Replies.antt =====
-- The reply that `FindReply` returns, and what the limit of `ListMessages` hides from it.
use tmux_tell.Common.{
  ℕ, zero, suc, ◌≤◌, ◌<◌, String, Bool, false, none, List, [], ◌∷◌, ◌≡◌, refl, ap, ◌∙◌, arith,
  if_cases, ◌&&◌, ◌||◌, not, ltb, ◌==◌, str_eq, take, length, select_rows, count_rows, first_row,
  All, count_rows-eq-length,
}
use tmux_tell.Names.{canonical_name}
use tmux_tell.Store.Tables.{State, Message, Store, ok, is_state}
use tmux_tell.Store.Queries.{
  listed, canonical_filter, list_messages, reply_filter, newer_than, since_id, list_replies,
  head_of, find_reply, same_text,
}

-- A row that answers the ask of the caller.
abbrev pub is_reply : String → String → Message → Bool
is_reply caller ask m =
    str_eq m.to_agent caller && same_text ask m.reply_to && not (is_state State.deferred m)

abbrev pub is_later : ℕ → Message → Bool
is_later since m = since == 0 || ltb since m.id

take_all : (n : ℕ) (ms : List Message) → length ms ≤ n → take n ms ≡ ms
take_all zero [] h = refl
take_all zero (m ∷ ms) h = absurd (omega arith)
take_all (suc n) [] h = refl
take_all (suc n) (m ∷ ms) h = ap (λ (l : List Message). m ∷ l) (take_all n ms (omega arith))

head-select :
    (p q : Message → Bool) (ms : List Message)
    → head_of (ok (select_rows p (select_rows q ms)))
      ≡ ok (first_row (λ (m : Message). q m && p m) ms)
head-select p q [] = refl
head-select p q (m ∷ ms) = ground (arith, head-select p q ms)

head-all :
    (q : Message → Bool) (ms : List Message) → head_of (ok (select_rows q ms)) ≡ ok (first_row q ms)
head-all q [] = refl
head-all q (m ∷ ms) = ground (arith, head-all q ms)

first_row-same :
    (p q : Message → Bool) (ms : List Message)
    → ((m : Message) → p m ≡ q m)
    → first_row p ms ≡ first_row q ms
first_row-same p q [] h = refl
first_row-same p q (m ∷ ms) h = ground (arith, h m, first_row-same p q ms h)

select_rows-same :
    (p q : Message → Bool) (ms : List Message)
    → ((m : Message) → p m ≡ q m)
    → select_rows p ms ≡ select_rows q ms
select_rows-same p q [] h = refl
select_rows-same p q (m ∷ ms) h = ground (arith, h m, select_rows-same p q ms h)

listed-eq-is_reply :
    (caller ask : String) (ms : List Message) (m : Message)
    → str_eq (canonical_name caller) "" ≡ false
    → str_eq ask "" ≡ false
    → listed (canonical_filter (reply_filter caller ask)) ms m
      ≡ is_reply (canonical_name caller) ask m
unfolding canonical_name
listed-eq-is_reply caller ask ms m c a = rw (c, a) (ground arith)

-- All replies to the ask, in the order of their ids.
abbrev pub replies_to : String → String → Store → List Message
replies_to caller ask s = select_rows (is_reply (canonical_name caller) ask) s.messages

list_replies-eq :
    (caller ask : String) (since : ℕ) (s : Store)
    → str_eq (canonical_name caller) "" ≡ false
    → str_eq ask "" ≡ false
    → list_replies caller ask since s ≡ since_id since (ok (take 1000 (replies_to caller ask s)))
unfolding list_replies list_messages
list_replies-eq caller ask since s c a =
    ap (λ (l : List Message). since_id since (ok (take 1000 l)))
      (select_rows-same _ (is_reply (canonical_name caller) ask) s.messages
        (λ m. listed-eq-is_reply caller ask s.messages m c a))

-- Where an ask of a caller with a name has at most 1000 replies, `FindReply` finds the first of them
-- whose id is above `since`, in the order of the table, and nothing if there is none.
pub find_reply-eq-first_row :
    (caller ask : String) (since : ℕ) (s : Store)
    → str_eq (canonical_name caller) "" ≡ false
    → str_eq ask "" ≡ false
    → count_rows (is_reply (canonical_name caller) ask) s.messages ≤ 1000
    → find_reply caller ask since s
      ≡ ok (
          first_row
            (λ (m : Message). is_reply (canonical_name caller) ask m && is_later since m)
            s.messages)
unfolding find_reply
find_reply-eq-first_row caller ask since s c a few =
    let q = is_reply (canonical_name caller) ask in
    let all =
      take_all 1000 (replies_to caller ask s) (omega (arith, count_rows-eq-length q s.messages)) in
    ap head_of (
      list_replies-eq caller ask since s c a ∙ ap (λ (l : List Message). since_id since (ok l)) all)
    ∙ if_cases
        (λ (l : List Message).
          head_of (ok l) ≡ ok (first_row (λ (m : Message). q m && is_later since m) s.messages))
        (since == 0)
        (λ t.
          head-all q s.messages
          ∙ ap ok (
              first_row-same q (λ (m : Message). q m && is_later since m) s.messages
                (λ m. ground arith)))
        (λ f.
          head-select (newer_than since) q s.messages
          ∙ ap ok (
              first_row-same (λ (m : Message). q m && newer_than since m)
                (λ (m : Message). q m && is_later since m) s.messages (λ m. ground arith)))

select_none :
    (p : Message → Bool) (ms : List Message)
    → All (λ (m : Message). p m ≡ false) ms
    → select_rows p ms ≡ []
select_none p [] h = refl
select_none p (m ∷ ms) (e, h) = rw e (select_none p ms h)

-- The limit comes before `since`: where the ids of the first 1000 replies are at most `since`, no reply
-- is found, even if there are more of them.
pub find_reply-capped :
    (caller ask : String) (since : ℕ) (s : Store)
    → str_eq (canonical_name caller) "" ≡ false
    → str_eq ask "" ≡ false
    → 0 < since
    → All (λ (m : Message). newer_than since m ≡ false) (take 1000 (replies_to caller ask s))
    → find_reply caller ask since s ≡ ok none
unfolding find_reply
find_reply-capped caller ask since s c a pos old =
    ap head_of (list_replies-eq caller ask since s c a)
    ∙ if_cases (λ (l : List Message). head_of (ok l) ≡ ok none) (since == 0)
        (λ t. absurd (ground arith))
        (λ _. rw (select_none (newer_than since) (take 1000 (replies_to caller ask s)) old) refl)
