-- ===== src/Login/Attempt/Log.antt =====
-- The calls on a login attempt of pkg/services/auth_attempts.go, and what the log of its events and
-- of its expiry says.
use teldrive_easy.Prelude.{ℕ, List, [], ◌∷◌, Option, none, some}
use teldrive_easy.Text.{Text}
use teldrive_easy.Login.Attempt.{
  Attempt, AttemptState, AuthType, Event, EventType, Session, Snapshot, subscribe, unsubscribe,
  hand_out, note, expire, expired, close, receive, set_if_any, token, phone_code, password_required,
  success, error, created, qr_pending, code_sent, authenticated, failed,
}

-- What the owner of an attempt, its watchers, its reader and the cleanup do with it; each call is
-- what is done under one lock. The two parts of `publish` are `notes` and `hands_out`.
pub data Call : Type 0 where
  watch : Call
  leave take_next : (ch : ℕ) → Call
  notes hands_out : Event → Call
  expires stop : Call

unfoldable pub call : Call → Attempt → Option Attempt
call watch a = some (subscribe a).2
call (leave ch) a = unsubscribe ch a
call (take_next ch) a = some (receive ch a)
call (notes e) a = some (note e e.kind a)
call (hands_out e) a = hand_out e a
call expires a = some (expire a)
call stop a = close a

unfoldable pub run : List Call → Attempt → Option Attempt
run [] a = some a
run (c ∷ cs) a = elim (call c a) [ none ↦ none | some b ↦ run cs b ]

-- What changes the state of an attempt.
pub data Entry : Type 0 where
  noted : Event → Entry
  expiry : Entry

-- What the calls note, before a log, the newest first.
unfoldable pub logged : List Call → List Entry → List Entry
logged [] log = log
logged (notes e ∷ cs) log = logged cs (noted e ∷ log)
logged (expires ∷ cs) log = logged cs (expiry ∷ log)
logged (watch ∷ cs) log = logged cs log
logged (leave ch ∷ cs) log = logged cs log
logged (take_next ch ∷ cs) log = logged cs log
logged (hands_out e ∷ cs) log = logged cs log
logged (stop ∷ cs) log = logged cs log

-- The last event that the calls hand out, if they do.
unfoldable pub handed : List Call → Option Event → Option Event
handed [] last = last
handed (hands_out e ∷ cs) last = handed cs (some e)
handed (notes e ∷ cs) last = handed cs last
handed (expires ∷ cs) last = handed cs last
handed (watch ∷ cs) last = handed cs last
handed (leave ch ∷ cs) last = handed cs last
handed (take_next ch ∷ cs) last = handed cs last
handed (stop ∷ cs) last = handed cs last

-- What a log says: the last entry gives the state and the message, where an expiry leaves what was
-- authenticated; and the last event of its kind gives the token, the code's hash and the session.
unfoldable pub state_after : EventType → AttemptState
state_after token = qr_pending
state_after phone_code = code_sent
state_after password_required = password_required
state_after success = authenticated
state_after error = failed

unfoldable pub lapsed_state : AttemptState → AttemptState
lapsed_state authenticated = authenticated
lapsed_state _ = expired

unfoldable pub state_of : List Entry → AttemptState
state_of [] = created
state_of (noted e ∷ log) = state_after e.kind
state_of (expiry ∷ log) = lapsed_state (state_of log)

-- "expired".
unfoldable pub lapsed_message : AttemptState → Text → Text
lapsed_message authenticated old = old
lapsed_message _ old = 101 ∷ 120 ∷ 112 ∷ 105 ∷ 114 ∷ 101 ∷ 100 ∷ []

unfoldable pub message_of : List Entry → Text
message_of [] = []
message_of (noted e ∷ log) = e.message
message_of (expiry ∷ log) = lapsed_message (state_of log) (message_of log)

unfoldable pub token_for : EventType → Text → Text → Text
token_for token new old = new
token_for _ new old = old

unfoldable pub token_of : List Entry → Text
token_of [] = []
token_of (noted e ∷ log) = token_for e.kind e.token (token_of log)
token_of (expiry ∷ log) = token_of log

unfoldable pub hash_for : EventType → Text → Text → Text
hash_for phone_code new old = new
hash_for _ new old = old

unfoldable pub hash_of : List Entry → Text
hash_of [] = []
hash_of (noted e ∷ log) = hash_for e.kind e.phone_code_hash (hash_of log)
hash_of (expiry ∷ log) = hash_of log

unfoldable pub session_for : EventType → Option Session → Option Session → Option Session
session_for success (some new) old = some new
session_for success none old = old
session_for _ new old = old

unfoldable pub session_of : List Entry → Option Session
session_of [] = none
session_of (noted e ∷ log) = session_for e.kind e.session (session_of log)
session_of (expiry ∷ log) = session_of log

unfoldable pub described : ℕ → AuthType → List Entry → Snapshot
described id auth_type log = record {
  id = id;
  auth_type = auth_type;
  state = state_of log;
  token = set_if_any (token_of log);
  phone_code_hash = set_if_any (hash_of log);
  session = session_of log;
  message = set_if_any (message_of log);
}
