-- ===== src/Login/Examples.antt =====
-- Runs of logins: one with a code, one of a user that is not allowed, and one that is watched.
use teldrive_easy.Prelude.{ℕ, ◌≡◌, refl, true, false, List, [], ◌∷◌, Option, none, some}
use teldrive_easy.Text.{Text}
use teldrive_easy.Login.Channels.{Channel, has}
use teldrive_easy.Login.Attempt.{
  Attempt, AttemptState, AuthType, Command, Event, EventType, Session, Snapshot, new_auth_attempt,
  snapshot, subscribe,
}
use teldrive_easy.Login.Attempt.Safe.{new_auth_attempt-IsSound}
use teldrive_easy.Login.Attempt.Log.{Call, described, handed, logged}
use teldrive_easy.Login.Attempt.View.{run-new_auth_attempt}
use teldrive_easy.Login.Command.{Answer, Config, Failure, Replies, event}
use teldrive_easy.Login.Session.{User, SessionData, check_user_is_allowed}
use teldrive_easy.Login.Service.{
  Response, Service, Step, auth_get_attempt, cleanup, new_service, run,
}
use teldrive_easy.Login
use teldrive_easy.Events
use teldrive_easy.Text as Strings
use teldrive_easy.Login.Service.Runs.{auth_get_attempt-run, run_total}
use teldrive_easy.Login.Service.Cleanup.{Ended, cleanup-Ended, expired_state}

abbrev ann : Text
ann = 97 ∷ 110 ∷ 110 ∷ []

abbrev bob : Text
bob = 98 ∷ 111 ∷ 98 ∷ []

abbrev config : Config
config = record {
  allowed_users = ann ∷ [];
  unmarshal = λ bytes. Answer.answered (record { dc = 2; auth_key = bytes });
  base64 = λ bytes. bytes;
}

abbrev user : Text → User
user name = record { id = 7; username = name; first_name = name; last_name = []; premium = false }

abbrev replies : Text → Replies
replies name = record {
  tokens = [];
  hash = Answer.answered (104 ∷ []);
  user = Answer.answered (user name);
  stored = Answer.answered (1 ∷ 2 ∷ []);
}

-- A login with a code: the code is sent, then the user signs in.
abbrev login : Text → List Step
login name =
    Step.starts AuthType.phone none
    ∷ Step.sends_first true AuthType.phone (some (49 ∷ [])) 0
    ∷ Step.works (replies name) 0
    ∷ Step.submits true (Command.sign_in (49 ∷ []) (50 ∷ []) (104 ∷ [])) 0
    ∷ Step.works (replies name) 0
    ∷ []

abbrev state_in : Option Service → ℕ → Option AttemptState
state_in none id = none
state_in (some s) id = of (auth_get_attempt id s)
  where
    of : Response → Option AttemptState
    of (Response.shown x) = some x.state
    of _ = none

login_allowed_test :
    state_in (run config (login ann) new_service) 0 ≡ some AttemptState.authenticated
unfolding Login.Channels.has Login.Attempt.hand_out Login.Attempt.note Login.Attempt.publish
    Login.Channels.each Login.Command.complete_auth_attempt Login.Command.execute
    Login.Command.run_send_code Login.Command.run_sign_in Login.Command.with_session
    Login.Command.with_stored Login.Service.act Login.Service.act_all Login.Service.get
    Login.Service.on_attempt Login.Service.perform Login.Service.stored Login.Service.submit
    Login.Session.check_user_is_allowed Login.Session.contains Strings.text_equal Login.Service.run
    Login.Service.and_then Login.Service.step Login.Service.send_first Login.Service.first_command
    Login.Service.after_first Login.Service.submit_to Events.Maps.lookup Login.Service.start_attempt
    Events.Maps.put Login.Service.new_service Login.Service.put_queued Login.Attempt.enqueue
    Login.Attempt.select Login.Attempt.new_auth_attempt Login.Service.work
    Login.Service.auth_get_attempt Login.Service.shown_or Login.Attempt.snapshot
login_allowed_test = refl

login_refused_test : state_in (run config (login bob) new_service) 0 ≡ some AttemptState.failed
unfolding Login.Channels.has Login.Attempt.hand_out Login.Attempt.note Login.Attempt.publish
    Login.Channels.each Login.Command.complete_auth_attempt Login.Command.execute
    Login.Command.run_send_code Login.Command.run_sign_in Login.Service.act Login.Service.act_all
    Login.Service.get Login.Service.on_attempt Login.Service.perform Login.Service.stored
    Login.Service.submit Login.Session.check_user_is_allowed Login.Session.contains
    Strings.text_equal Login.Service.run Login.Service.and_then Login.Service.step
    Login.Service.send_first Login.Service.first_command Login.Service.after_first
    Login.Service.submit_to Events.Maps.lookup Login.Service.start_attempt Events.Maps.put
    Login.Service.new_service Login.Service.put_queued Login.Attempt.enqueue Login.Attempt.select
    Login.Attempt.new_auth_attempt Login.Service.work Login.Service.auth_get_attempt
    Login.Service.shown_or Login.Attempt.snapshot
login_refused_test = refl

abbrev service_or : Service → Option Service → Service
service_or d none = d
service_or d (some s) = s

abbrev logged_in : Service
logged_in = service_or new_service (run config (login ann) new_service)

abbrev shown_session : Snapshot
shown_session = record {
  id = 0;
  auth_type = AuthType.phone;
  state = AttemptState.authenticated;
  token = none;
  phone_code_hash = some (104 ∷ []);
  session = some (record {
    name = 97 ∷ 110 ∷ 110 ∷ 32 ∷ [];
    user_name = ann;
    user_id = 7;
    is_premium = false;
    session = 49 ∷ 2 ∷ 149 ∷ 154 ∷ 167 ∷ 51 ∷ 1 ∷ 187 ∷ 1 ∷ 2 ∷ [];
  });
  message = some (115 ∷ 117 ∷ 99 ∷ 99 ∷ 101 ∷ 115 ∷ 115 ∷ []);
}

auth_get_attempt-run_example :
    (w : Session) × (shown_session.session ≡ some w)
    × (check_user_is_allowed (ann ∷ []) w.user_name ≡ true)
unfolding Login.Channels.has Login.Attempt.hand_out Login.Attempt.kept_session Login.Attempt.note
    Login.Attempt.publish Login.Channels.each Login.Command.complete_auth_attempt
    Login.Command.execute Login.Command.run_send_code Login.Command.run_sign_in
    Login.Command.with_session Login.Command.with_stored Login.Service.act Login.Service.act_all
    Login.Service.get Login.Service.on_attempt Login.Service.perform Login.Service.stored
    Login.Service.submit Login.Session.check_user_is_allowed Login.Session.contains
    Login.Session.dc_address Login.Session.generate_tg_session Login.Session.prepare_session
    Login.Session.put_uint16 Strings.text_equal Login.Service.run Login.Service.and_then
    Login.Service.step Login.Service.send_first Login.Service.first_command
    Login.Service.after_first Login.Service.submit_to Events.Maps.lookup Login.Service.start_attempt
    Events.Maps.put Login.Service.new_service Login.Service.put_queued Login.Attempt.enqueue
    Login.Attempt.select Login.Attempt.new_auth_attempt Login.Service.work
    Login.Service.auth_get_attempt Login.Service.shown_or Login.Attempt.snapshot
    Login.Attempt.set_if_any
auth_get_attempt-run_example =
    auth_get_attempt-run config (login ann) logged_in 0 shown_session refl refl refl

run_total_example : (s : Service) × (run config (login bob) new_service ≡ some s)
run_total_example = run_total config (login bob)

-- An attempt that is watched, told of a token, expires in between, is left and closed.
abbrev calls : List Call
calls =
    Call.watch
    ∷ Call.notes (event EventType.token [])
    ∷ Call.expires
    ∷ Call.hands_out (event EventType.token [])
    ∷ Call.take_next 0
    ∷ Call.leave 0
    ∷ Call.stop
    ∷ Call.stop
    ∷ []

run-new_auth_attempt_example :
    (a : Attempt) × (Login.Attempt.Log.run calls (new_auth_attempt 3 AuthType.qr) ≡ some a)
    × (snapshot a ≡ described 3 AuthType.qr (logged calls []))
    × ((subscribe a).1 ≡ handed calls none)
run-new_auth_attempt_example = run-new_auth_attempt 3 AuthType.qr calls

abbrev waiting : Service
waiting = record new_service {
  objects = (0, new_auth_attempt 0 AuthType.qr) ∷ [];
  attempts = 0 ∷ [];
  timers = 0 ∷ [];
}

cleanup-Ended_example : Ended 0 AttemptState.expired (cleanup 0 waiting)
unfolding Login.Channels.has Events.Maps.lookup Login.Attempt.new_auth_attempt expired_state
cleanup-Ended_example =
    cleanup-Ended 0 waiting (new_auth_attempt 0 AuthType.qr)
      (new_auth_attempt-IsSound 0 AuthType.qr) refl refl refl
