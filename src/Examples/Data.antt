-- ===== src/Examples/Data.antt =====
-- A small store: four messages among three agents, of which one has a live pane.
use tmux_tell.Common.{
  ℕ, ◌+◌, String, false, Option, none, some, [], ◌∷◌, ◌==◌, if◌then◌else◌, arith, refl,
}
use tmux_tell.Store.Tables.{State, Kind, Message, Agent, Store}
use tmux_tell.Store.Integrity.{IsSound}
use tmux_tell.Store.Insert.{InsertParams}

abbrev pub draws : ℕ → Option String
draws n =
    if n == 0 then some "d0" else if n == 1 then some "d1" else if n == 2 then some "d2" else none

abbrev pub row : ℕ → String → String → String → State → Option String → Message
row id public_id from to state reply_to = record {
  id = id;
  public_id = public_id;
  from_agent = from;
  to_agent = to;
  reply_to = reply_to;
  body = "ahoy";
  kind = Kind.message;
  no_reply_expected = false;
  quick = false;
  state = state;
  created_at = 10 + id;
  delivered_at = none;
  error = none;
  replay_of = none;
  replay_of_at = none;
  deliver_after = none;
  verified = none;
  expects_reply = false;
  priority = 20;
  force_rate_limited = false;
}

abbrev pub pilot : Agent
pilot = record {
  name = "pilot";
  pane_id = some "%1";
  paused = false;
  updated_at = 1;
  aliases = [];
  delivery_mode = "paste-and-enter";
  backlog_epoch = none;
  attention_state = "online";
  stuck_reason = "";
  display_name = "Pilot";
  session_id = "";
  metabolism = "";
  metabolism_set_at = none;
  respawn_after_shrinks = 0;
  respawn_shrink_count = 0;
  last_self_compact_at = none;
  self_compact_counted_at = none;
  resume_promoted_at = none;
  relaunch_cmd = "";
  auto_restart = false;
  provider = "openai";
}

abbrev pub first : Message
first = row 1 "m1" "pilot" "bosun" State.queued none

abbrev pub second : Message
second = record (row 2 "m2" "cook" "bosun" State.queued none) { priority = 30 }

abbrev pub third : Message
third = record (row 3 "m3" "pilot" "bosun" State.delivered none) { verified = some false }

abbrev pub reply : Message
reply = row 4 "m4" "bosun" "pilot" State.queued (some "m3")

abbrev pub harbor : Store
harbor = record {
  messages = first ∷ second ∷ third ∷ reply ∷ [];
  agents = pilot ∷ [];
  next_id = 5;
  drawn = 0;
  rings = [];
}

pub harbor-IsSound : IsSound harbor
harbor-IsSound = record {
  below = (omega arith, (omega arith, (omega arith, (omega arith, tt))));
  ascends = (
    (omega arith, (omega arith, (omega arith, tt))),
    ((omega arith, (omega arith, tt)), ((omega arith, tt), (tt, tt))),
  );
  distinct = (refl, (refl, (refl, (refl, tt))));
  replies = (tt, (tt, (tt, (refl, tt))));
}

abbrev pub params : String → String → InsertParams
params to body = record {
  from_agent = "Cook";
  to_agent = to;
  reply_to = "";
  body = body;
  kind = none;
  no_reply_expected = false;
  quick = false;
  replay_of = "";
  replay_of_at = "";
  deliver_after = "";
  expects_reply = false;
  priority = 0;
  force_rate_limited = false;
  max_recipient_queue = 5;
  max_sender_backlog = 5;
}
