-- ===== src/Login/Service/Actions.antt =====
-- The actions of a login's commands.

use teldrive_easy.Prelude.{
  ℕ, ◌≡◌, ◌≢◌, refl, Bool, true, false, List, [], ◌∷◌, ◌++◌, inl, inr, Bool-cases, if◌then◌else◌,
  map,
}
use teldrive_easy.Text.{Text, contains_text}
use teldrive_easy.Login
use teldrive_easy.Login.Attempt.{
  Attempt, AttemptState, AuthType, Command, Enqueued, Event, EventType, Session, with_channels,
  note, new_auth_attempt, kept_session, enqueue, expire_from, select,
}
use teldrive_easy.Login.Session.{User, SessionData, check_user_is_allowed, prepare_session}
use teldrive_easy.Login.Command.{
  Action, Answer, Config, two_factor_required, phone_code_invalid, Replies, answered,
  complete_auth_attempt, error_action, event, execute, execute_qr_login, log_out, publish,
  qr_result, refused, run_password, run_send_code, run_sign_in, schedule_cleanup, token_event,
  with_session, with_stored,
}
use teldrive_easy.Login.Service.Vouched.{
  Vouching, AllFine, Safely, on_attempt-Safely, publish-Preserves, and_then-Safely,
}
use teldrive_easy.Login.Service.{Service, act, act_all}

module _ (cfg : Config) where
  -- Actions.
  abbrev pub IsGood : Action → Type 0
  IsGood (publish e) = Vouching cfg e
  IsGood log_out = Unit
  IsGood schedule_cleanup = Unit

  abbrev pub AllGood : List Action → Type 0
  AllGood [] = Unit
  AllGood (x ∷ xs) = IsGood x × AllGood xs

  act-Safely :
      (id : ℕ) (x : Action) (s : Service) → IsGood x → AllFine cfg s → Safely cfg (act id x s)
  unfolding act
  act-Safely id (publish e) s g all =
      on_attempt-Safely cfg (Login.Attempt.publish e) id s (publish-Preserves cfg e g) all
  act-Safely id log_out s g all = (record s { logged_out = id ∷ s.logged_out }, refl, all)
  act-Safely id schedule_cleanup s g all = (record s { timers = id ∷ s.timers }, refl, all)

  pub act_all-Safely :
      (id : ℕ) (xs : List Action) (s : Service)
      → AllGood xs
      → AllFine cfg s
      → Safely cfg (act_all id xs s)
  unfolding act_all
  act_all-Safely id [] s g all = (s, refl, all)
  act_all-Safely id (x ∷ xs) s g all =
      and_then-Safely cfg (act id x s) (λ t. act_all id xs t) (act-Safely id x s g.0 all)
        (λ t h. act_all-Safely id xs t g.1 h)

  plain-Vouching : (t : EventType) (m : Text) → t ≢ EventType.success → Vouching cfg (event t m)
  plain-Vouching t m n = record { vetted = tt; authentic = λ e. absurd (n e) }

  pub error-AllGood : (m : Text) → AllGood (error_action m)
  error-AllGood m = (plain-Vouching EventType.error m (λ e. cc), tt)

  if-AllGood :
      (b : Bool) (xs ys : List Action) → AllGood xs → AllGood ys → AllGood (if b then xs else ys)
  if-AllGood true xs ys h k = h
  if-AllGood false xs ys h k = k

  with_session-AllGood :
      (user : User) (r : Answer SessionData)
      → check_user_is_allowed cfg.allowed_users user.username ≡ true
      → AllGood (with_session cfg user r)
  unfolding with_session prepare_session
  with_session-AllGood user (refused f) h = error-AllGood f.message
  with_session-AllGood user (answered d) h =
      (record { vetted = h; authentic = λ e. (prepare_session cfg.base64 user d, refl) }, (tt, tt))

  with_stored-AllGood :
      (user : User) (r : Answer (List ℕ))
      → check_user_is_allowed cfg.allowed_users user.username ≡ true
      → AllGood (with_stored cfg user r)
  unfolding with_stored
  with_stored-AllGood user (refused f) h = error-AllGood f.message
  with_stored-AllGood user (answered res) h = with_session-AllGood user (cfg.unmarshal res) h

  complete-AllGood :
      (user : User) (r : Answer (List ℕ)) → AllGood (complete_auth_attempt cfg user r)
  unfolding complete_auth_attempt
  complete-AllGood user r =
      elim (Bool-cases (check_user_is_allowed cfg.allowed_users user.username)) [
        | inl e ↦ rw e (with_stored-AllGood user r e)
        | inr e ↦ rw e (plain-Vouching EventType.error _ (λ e'. cc), (tt, tt))
      ]

  refused-AllGood : (b : Bool) (xs : List Action) → AllGood xs → AllGood (if b then [] else xs)
  refused-AllGood b xs h = if-AllGood b [] xs tt h

  needs_password-AllGood :
      (b : Bool) (m : Text) (xs : List Action)
      → AllGood xs
      → AllGood (if b then publish (event EventType.password_required m) ∷ [] else xs)
  needs_password-AllGood b m xs h =
      if-AllGood b (publish (event EventType.password_required m) ∷ []) xs
        (plain-Vouching EventType.password_required m (λ e. cc), tt) h

  run_send_code-AllGood : (hash : Answer Text) → AllGood (run_send_code hash)
  unfolding run_send_code
  run_send_code-AllGood (answered hash) = (record { vetted = tt; authentic = λ e. cc }, tt)
  run_send_code-AllGood (refused f) =
      refused-AllGood f.canceled (error_action f.message) (error-AllGood f.message)

  run_password-AllGood :
      (user : Answer User) (r : Answer (List ℕ)) → AllGood (run_password cfg user r)
  unfolding run_password
  run_password-AllGood (answered user) r = complete-AllGood user r
  run_password-AllGood (refused f) r =
      refused-AllGood f.canceled (error_action f.message) (error-AllGood f.message)

  run_sign_in-AllGood :
      (user : Answer User) (r : Answer (List ℕ)) → AllGood (run_sign_in cfg user r)
  unfolding run_sign_in
  run_sign_in-AllGood (answered user) r = complete-AllGood user r
  run_sign_in-AllGood (refused f) r = refused-AllGood f.canceled _ (
      needs_password-AllGood f.password_auth_needed two_factor_required _ (
        if-AllGood (contains_text phone_code_invalid f.message) (error_action phone_code_invalid)
          (error_action f.message) (error-AllGood phone_code_invalid) (error-AllGood f.message)))

  qr_result-AllGood : (user : Answer User) (r : Answer (List ℕ)) → AllGood (qr_result cfg user r)
  unfolding qr_result
  qr_result-AllGood (answered user) r = complete-AllGood user r
  qr_result-AllGood (refused f) r = refused-AllGood f.canceled _ (
      needs_password-AllGood f.session_password_needed two_factor_required (error_action f.message)
        (error-AllGood f.message))

  tokens-AllGood :
      (urls : List Text) (xs : List Action)
      → AllGood xs
      → AllGood (map (λ url. publish (token_event url)) urls ++ xs)
  tokens-AllGood [] xs h = h
  tokens-AllGood (url ∷ urls) xs h =
      (record { vetted = tt; authentic = λ e. cc }, tokens-AllGood urls xs h)

  pub execute-AllGood : (cmd : Command) (r : Replies) → AllGood (execute cfg cmd r)
  unfolding execute execute_qr_login
  execute-AllGood Command.qr_login r =
      tokens-AllGood r.tokens (qr_result cfg r.user r.stored) (qr_result-AllGood r.user r.stored)
  execute-AllGood (Command.send_code phone_no) r = run_send_code-AllGood r.hash
  execute-AllGood (Command.sign_in phone_no code hash) r = run_sign_in-AllGood r.user r.stored
  execute-AllGood (Command.password p) r = run_password-AllGood r.user r.stored
