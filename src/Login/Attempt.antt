-- ===== src/Login/Attempt.antt =====
-- `authAttempt` of pkg/services/auth_attempts.go: one login, its state and who watches it. The
-- payload of an event is the event. The channels that an attempt has made are numbered.
pub mod Safe
pub mod Log
pub mod View
use mathlib.Core.Option.{map as option_map}
use teldrive_easy.Prelude.{
  ℕ, suc, Bool, true, false, ◌&&◌, List, [], ◌∷◌, ◌++◌, Option, none, some, ltb, if◌then◌else◌,
  length,
}
use teldrive_easy.Text.{Text}
use teldrive_easy.Events.Maps.{put, lookup}
use teldrive_easy.Login.Channels.{Channel, offer, close_channel, each, on_channel, has, remove}

pub data AuthType : Type 0 where
  qr phone : AuthType

pub data AttemptState : Type 0 where
  created qr_pending code_sent password_required authenticated failed expired : AttemptState

pub record Session : Type 0 where
  pub name : Text
  pub user_name : Text
  pub user_id : ℕ
  pub is_premium : Bool
  pub session : Text

-- What a command of the client asks of Telegram.
pub data Command : Type 0 where
  qr_login : Command
  send_code : (phone_no : Text) → Command
  sign_in : (phone_no phone_code phone_code_hash : Text) → Command
  password : (password : Text) → Command

pub data EventType : Type 0 where
  token phone_code password_required success error : EventType

pub record Event : Type 0 where
  pub kind : EventType
  pub token : Text
  pub phone_code_hash : Text
  pub session : Option Session
  pub message : Text

pub record Attempt : Type 0 where
  pub id : ℕ
  pub auth_type : AuthType
  pub state : AttemptState
  pub commands : List Command
  pub subscribers : List ℕ
  pub latest : Option Event
  pub token : Text
  pub phone_code_hash : Text
  pub session : Option Session
  pub message : Text
  pub done : Bool
  pub made : ℕ
  pub channels : List (ℕ × Channel Event)

-- `newAuthAttempt`.
unfoldable pub new_auth_attempt : ℕ → AuthType → Attempt
new_auth_attempt id auth_type = record {
  id = id;
  auth_type = auth_type;
  state = created;
  commands = [];
  subscribers = [];
  latest = none;
  token = [];
  phone_code_hash = [];
  session = none;
  message = [];
  done = false;
  made = 0;
  channels = [];
}

-- What the client sees of an attempt.
pub record Snapshot : Type 0 where
  pub id : ℕ
  pub auth_type : AuthType
  pub state : AttemptState
  pub token : Option Text
  pub phone_code_hash : Option Text
  pub session : Option Session
  pub message : Option Text

unfoldable pub set_if_any : Text → Option Text
set_if_any [] = none
set_if_any (c ∷ cs) = some (c ∷ cs)

unfoldable pub snapshot : Attempt → Snapshot
snapshot a = record {
  id = a.id;
  auth_type = a.auth_type;
  state = a.state;
  token = set_if_any a.token;
  phone_code_hash = set_if_any a.phone_code_hash;
  session = a.session;
  message = set_if_any a.message;
}

-- A command waits where the queue is full; Go picks one of the two cases that are ready.
pub data Enqueued : Type 0 where
  closed : Enqueued
  waits : Enqueued
  queued : Attempt → Enqueued

unfoldable pub select : (is_done has_room picks_queue : Bool) → Attempt → Enqueued
select true true true next = queued next
select true true false next = closed
select true false picks_queue next = closed
select false true picks_queue next = queued next
select false false picks_queue next = waits

unfoldable pub enqueue : (picks_queue : Bool) → Command → Attempt → Enqueued
enqueue picks_queue cmd a =
    select a.done (ltb (length a.commands) 8) picks_queue
      (record a { commands = a.commands ++ cmd ∷ [] })

-- `subscribe`: the new channel and the payload to start with.
unfoldable pub subscribe : Attempt → ℕ × Option Event × Attempt
subscribe a = (
  a.made,
  a.latest,
  record a {
    subscribers = a.made ∷ a.subscribers;
    made = suc a.made;
    channels = put a.made (record { queue = []; closed = false }) a.channels;
  },
)

abbrev pub with_channels : Attempt → List (ℕ × Channel Event) → Attempt
with_channels a cs = record a { channels = cs }

unfoldable pub unsubscribe : ℕ → Attempt → Option Attempt
unsubscribe ch a =
    if has ch a.subscribers
    then option_map (with_channels (record a { subscribers = remove ch a.subscribers }))
        (on_channel close_channel ch a.channels)
    else some a

unfoldable pub kept_session : Option Session → Option Session → Option Session
kept_session none old = old
kept_session (some s) old = some s

-- The first part of `publish`.
unfoldable pub note : Event → EventType → Attempt → Attempt
note e token a = record a { state = qr_pending; token = e.token; message = e.message }
note e phone_code a = record a {
  state = code_sent;
  phone_code_hash = e.phone_code_hash;
  message = e.message;
}
note e password_required a = record a { state = password_required; message = e.message }
note e success a = record a {
  state = authenticated;
  session = kept_session e.session a.session;
  message = e.message;
}
note e error a = record a { state = failed; message = e.message }

-- The second part: the payload is kept, and offered to each subscriber.
unfoldable pub hand_out : Event → Attempt → Option Attempt
hand_out e a =
    option_map (with_channels (record a { latest = some e }))
      (each (offer e) a.subscribers a.channels)

-- Both parts lock the attempt, so that other calls may come in between; `json.Marshal` does not fail
-- on these events.
unfoldable pub publish : Event → Attempt → Option Attempt
publish e a = hand_out e (note e e.kind a)

-- `close`.
unfoldable pub close : Attempt → Option Attempt
close a =
    if a.done
    then some a
    else option_map (with_channels (record a { done = true; subscribers = [] }))
        (each close_channel a.subscribers a.channels)

-- A reader takes what its channel has first.
unfoldable pub receive : ℕ → Attempt → Attempt
receive ch a = elim (lookup ch a.channels) [
  | none ↦ a
  | some c ↦ elim c.queue [
    | [] ↦ a
    | e ∷ es ↦ with_channels a (put ch (record c { queue = es }) a.channels)
  ]
]

-- What `scheduleAttemptCleanup` does to an attempt before it deletes it.
unfoldable pub expire_from : AttemptState → Attempt → Attempt
expire_from authenticated a = a
expire_from _ a = record a {
  state = expired;
  message = 101 ∷ 120 ∷ 112 ∷ 105 ∷ 114 ∷ 101 ∷ 100 ∷ [];
}

unfoldable pub expire : Attempt → Attempt
expire a = expire_from a.state a
