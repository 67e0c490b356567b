-- ===== src/Store/Queries.antt =====
-- internal/store/messages.go and reply.go: the queries of `ListMessages`, `TailRows`, `MessagesByIDs` and
-- `RefusedInbound`, and the replies to an ask, `ListReplies` and `FindReply`. A timestamp floor that is
-- the empty string is `none`, as is an empty state or kind.
pub mod Replies
pub mod Pages
use tmux_tell.Common.{
  ℕ, zero, suc, ◌+◌, ◌-◌, String, Bool, true, false, Option, none, some, List, [], ◌∷◌, ◌++◌, ◌&&◌,
  ◌||◌, not, ltb, leb, ◌==◌, str_eq, if◌then◌else◌, take, select_rows, count_rows, first_row,
  any_row, max,
}
use tmux_tell.Names.{canonical_name}
use tmux_tell.Store.Tables.{
  State, Kind, Message, Store, Error, invalid_value, Result, ok, err, is_state, same_state,
  same_kind,
}

pub record ListFilter : Type 0 where
  pub to_agent : String
  pub from_agent : String
  pub reply_to : String
  pub state : Option State
  pub kind : Option Kind
  pub limit : ℕ
  pub since_created_at : Option ℕ
  pub unverified : Bool
  pub order_desc : Bool
  pub deferred : Bool
  pub unanswered : Bool
  pub awaiting_reply : Bool

-- `column = ?`, unless the filter's text is empty.
abbrev pub matches_text : String → String → Bool
matches_text wanted column = str_eq wanted "" || str_eq column wanted

abbrev pub same_text : String → Option String → Bool
same_text t none = false
same_text t (some s) = str_eq s t

abbrev pub matches_reply : String → Option String → Bool
matches_reply wanted column = str_eq wanted "" || same_text wanted column

-- The clause on the state: a wanted one, or the choice between deferred rows and all others.
abbrev pub matches_state : Option State → Bool → Message → Bool
matches_state (some st) deferred m = is_state st m
matches_state none true m = is_state State.deferred m
matches_state none false m = not (is_state State.deferred m)

abbrev pub matches_kind : Option Kind → Message → Bool
matches_kind none m = true
matches_kind (some k) m = same_kind m.kind k

abbrev pub since_floor : Option ℕ → Message → Bool
since_floor none m = true
since_floor (some t) m = leb t m.created_at

abbrev pub is_unverified : Option Bool → Bool
is_unverified (some false) = true
is_unverified _ = false

-- NOT EXISTS (a reply to the row by the agent)
abbrev pub unreplied : String → Message → List Message → Bool
unreplied by_agent m ms =
    not (
      any_row (λ (r : Message). same_text m.public_id r.reply_to && str_eq r.from_agent by_agent)
        ms)

abbrev pub listed : ListFilter → List Message → Message → Bool
listed f ms m =
    matches_text f.to_agent m.to_agent
    && matches_text f.from_agent m.from_agent
    && matches_reply f.reply_to m.reply_to
    && matches_state f.state f.deferred m
    && matches_kind f.kind m
    && since_floor f.since_created_at m
    && (not f.unverified || (is_state State.delivered m && is_unverified m.verified))
    && (not f.unanswered || (m.expects_reply && unreplied f.to_agent m ms))
    && (not f.awaiting_reply || (m.expects_reply && unreplied m.to_agent m ms))

abbrev pub clamp_limit : ℕ → ℕ
clamp_limit n = if n == 0 then 100 else if ltb 1000 n then 1000 else n

abbrev pub reversed : {A : Type 0} → List A → List A
reversed [] = []
reversed (x ∷ xs) = reversed xs ++ x ∷ []

abbrev pub names_other_state : Option State → Bool
names_other_state none = false
names_other_state (some st) = not (same_state st State.delivered)

abbrev pub canonical_filter : ListFilter → ListFilter
canonical_filter f = record f {
  to_agent = canonical_name f.to_agent;
  from_agent = canonical_name f.from_agent;
}

unfoldable pub list_messages : ListFilter → Store → Result (List Message)
list_messages filter s =
    let f = canonical_filter filter in
    let rows = select_rows (listed f s.messages) s.messages in
    if f.unverified && names_other_state f.state
    then err invalid_value
    else if f.unanswered && str_eq f.to_agent ""
    then err invalid_value
    else ok (take (clamp_limit f.limit) (if f.order_desc then reversed rows else rows))

pub record TailFilter : Type 0 where
  pub from : String
  pub to : String
  pub kind : Option Kind
  pub since_created_at : Option ℕ

abbrev pub tail_passes : TailFilter → Message → Bool
tail_passes f m =
    matches_text (canonical_name f.from) m.from_agent
    && matches_text (canonical_name f.to) m.to_agent
    && matches_kind f.kind m
    && since_floor f.since_created_at m

abbrev pub tailed : ℕ → TailFilter → Message → Bool
tailed after_id f m = ltb after_id m.id && tail_passes f m

unfoldable pub tail_rows : ℕ → TailFilter → ℕ → Store → List Message
tail_rows after_id f limit s =
    take (if limit == 0 then 1000 else limit) (select_rows (tailed after_id f) s.messages)

abbrev pub elem : ℕ → List ℕ → Bool
elem n [] = false
elem n (k ∷ ks) = n == k || elem n ks

unfoldable pub messages_by_ids : List ℕ → Store → List Message
messages_by_ids ids s = select_rows (λ (m : Message). elem m.id ids) s.messages

-- `RefusedInboundWindow`, in milliseconds.
abbrev pub refused_inbound_window : ℕ
refused_inbound_window = 86400000

pub record RefusedInbound : Type 0 where
  pub recent : ℕ
  pub total : ℕ
  pub newest_at : Option ℕ

abbrev pub refused_to : String → Message → Bool
refused_to to m = str_eq m.to_agent to && is_state State.refused m

abbrev pub later_of : ℕ → Option ℕ → Option ℕ
later_of t none = some t
later_of t (some u) = some (max t u)

abbrev pub max_created_at : List Message → Option ℕ
max_created_at [] = none
max_created_at (m ∷ ms) = later_of m.created_at (max_created_at ms)

unfoldable pub refused_inbound : String → ℕ → Store → RefusedInbound
refused_inbound to now s =
    let mine = select_rows (refused_to (canonical_name to)) s.messages in
    record {
      recent = count_rows (λ (m : Message). leb (now - refused_inbound_window) m.created_at) mine;
      total = count_rows (refused_to (canonical_name to)) s.messages;
      newest_at = max_created_at mine;
    }

abbrev pub reply_filter : String → String → ListFilter
reply_filter caller ask = record {
  to_agent = caller;
  from_agent = "";
  reply_to = ask;
  state = none;
  kind = none;
  limit = 1000;
  since_created_at = none;
  unverified = false;
  order_desc = false;
  deferred = false;
  unanswered = false;
  awaiting_reply = false;
}

abbrev pub newer_than : ℕ → Message → Bool
newer_than since m = ltb since m.id

abbrev pub since_id : ℕ → Result (List Message) → Result (List Message)
since_id since (err e) = err e
since_id since (ok ms) = ok (if since == 0 then ms else select_rows (newer_than since) ms)

unfoldable pub list_replies : String → String → ℕ → Store → Result (List Message)
unfolding list_messages
list_replies caller ask since s = since_id since (list_messages (reply_filter caller ask) s)

abbrev pub head_of : Result (List Message) → Result (Option Message)
head_of (err e) = err e
head_of (ok []) = ok none
head_of (ok (m ∷ ms)) = ok (some m)

unfoldable pub find_reply : String → String → ℕ → Store → Result (Option Message)
unfolding list_replies
find_reply caller ask since s = head_of (list_replies caller ask since s)
