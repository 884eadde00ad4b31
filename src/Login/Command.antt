-- ===== src/Login/Command.antt =====
-- The commands of a login attempt, as the closures of pkg/services/auth_attempts.go run them: what
-- Telegram and the session storage answer decides which events they publish. JSON is a parameter.
use teldrive_easy.Prelude.{ℕ, Bool, List, [], ◌∷◌, ◌++◌, none, some, if◌then◌else◌, map}
use teldrive_easy.Text.{Text, contains_text}
use teldrive_easy.Login.Attempt.{Command, Event, EventType, qr_login, send_code, sign_in, password}
use teldrive_easy.Login.Session.{User, SessionData, check_user_is_allowed, prepare_session}

-- An error, and which of the errors that the code asks for it is.
pub record Failure : Type 0 where
  pub canceled : Bool
  pub password_auth_needed : Bool
  pub session_password_needed : Bool
  pub message : Text

pub data Answer {ℓ} (A : Type ℓ) : Type ℓ where
  answered : A → Answer A
  refused : Failure → Answer A

pub record Config : Type 0 where
  pub allowed_users : List Text
  pub unmarshal : List ℕ → Answer SessionData
  pub base64 : List ℕ → Text

-- What a command gets: the tokens that the login with a QR code shows first, and the results.
pub record Replies : Type 0 where
  pub tokens : List Text
  pub hash : Answer Text
  pub user : Answer User
  pub stored : Answer (List ℕ)

pub data Action : Type 0 where
  publish : Event → Action
  log_out schedule_cleanup : Action

abbrev pub event : EventType → Text → Event
event kind message = record {
  kind = kind;
  token = [];
  phone_code_hash = [];
  session = none;
  message = message;
}

abbrev pub token_event : Text → Event
token_event url = record (event EventType.token []) { token = url }

abbrev pub error_action : Text → List Action
error_action message = publish (event EventType.error message) ∷ []

-- "2FA required", "PHONE_CODE_INVALID", "user not allowed" and "success".
abbrev pub two_factor_required : Text
two_factor_required = 50 ∷ 70 ∷ 65 ∷ 32 ∷ 114 ∷ 101 ∷ 113 ∷ 117 ∷ 105 ∷ 114 ∷ 101 ∷ 100 ∷ []

abbrev pub phone_code_invalid : Text
phone_code_invalid =
    80 ∷ 72 ∷ 79 ∷ 78 ∷ 69 ∷ 95 ∷ 67 ∷ 79 ∷ 68 ∷ 69 ∷ 95 ∷ 73 ∷ 78 ∷ 86 ∷ 65 ∷ 76 ∷ 73 ∷ 68 ∷ []

abbrev pub user_not_allowed : Text
user_not_allowed =
    117 ∷ 115 ∷ 101 ∷ 114 ∷ 32 ∷ 110 ∷ 111 ∷ 116 ∷ 32 ∷ 97 ∷ 108 ∷ 108 ∷ 111 ∷ 119 ∷ 101 ∷ 100 ∷ []

abbrev pub succeeded : Text
succeeded = 115 ∷ 117 ∷ 99 ∷ 99 ∷ 101 ∷ 115 ∷ 115 ∷ []

-- `completeAuthAttempt`.
unfoldable pub with_session : Config → User → Answer SessionData → List Action
with_session cfg user (refused f) = error_action f.message
with_session cfg user (answered d) =
    publish (record (event EventType.success succeeded) {
      session = some (prepare_session cfg.base64 user d);
    })
    ∷ schedule_cleanup
    ∷ []

unfoldable pub with_stored : Config → User → Answer (List ℕ) → List Action
with_stored cfg user (refused f) = error_action f.message
with_stored cfg user (answered res) = with_session cfg user (cfg.unmarshal res)

unfoldable pub complete_auth_attempt : Config → User → Answer (List ℕ) → List Action
complete_auth_attempt cfg user stored =
    if check_user_is_allowed cfg.allowed_users user.username
    then with_stored cfg user stored
    else publish (event EventType.error user_not_allowed) ∷ log_out ∷ []

-- The closures.
unfoldable pub run_send_code : Answer Text → List Action
run_send_code (answered hash) =
    publish (record (event EventType.phone_code []) { phone_code_hash = hash }) ∷ []
run_send_code (refused f) = if f.canceled then [] else error_action f.message

unfoldable pub run_sign_in : Config → Answer User → Answer (List ℕ) → List Action
run_sign_in cfg (answered user) stored = complete_auth_attempt cfg user stored
run_sign_in cfg (refused f) stored =
    if f.canceled
    then []
    else if f.password_auth_needed
    then publish (event EventType.password_required two_factor_required) ∷ []
    else if contains_text phone_code_invalid f.message
    then error_action phone_code_invalid
    else error_action f.message

unfoldable pub run_password : Config → Answer User → Answer (List ℕ) → List Action
run_password cfg (answered user) stored = complete_auth_attempt cfg user stored
run_password cfg (refused f) stored = if f.canceled then [] else error_action f.message

-- `executeQRLogin`, behind the tokens.
unfoldable pub qr_result : Config → Answer User → Answer (List ℕ) → List Action
qr_result cfg (answered user) stored = complete_auth_attempt cfg user stored
qr_result cfg (refused f) stored =
    if f.canceled
    then []
    else if f.session_password_needed
    then publish (event EventType.password_required two_factor_required) ∷ []
    else error_action f.message

unfoldable pub execute_qr_login : Config → Replies → List Action
execute_qr_login cfg r =
    map (λ url. publish (token_event url)) r.tokens ++ qr_result cfg r.user r.stored

unfoldable pub execute : Config → Command → Replies → List Action
execute cfg qr_login r = execute_qr_login cfg r
execute cfg (send_code phone_no) r = run_send_code r.hash
execute cfg (sign_in phone_no phone_code hash) r = run_sign_in cfg r.user r.stored
execute cfg (password p) r = run_password cfg r.user r.stored
