-- ===== src/Access/Runs.antt =====
-- Runs of requests, logins, logouts and changes of keys. A check and its write of a cache are two
-- steps, and so are the revocation of a session and the clearing of the caches; the steps of
-- different requests may come in any order.
use teldrive_easy.Prelude.{ℕ, List, [], ◌∷◌, Option, none, some, Bool}
use teldrive_easy.Events.Maps.{delete}
use teldrive_easy.Access.Tables.{Session}
use teldrive_easy.Access.Service.{
  Cleared, Decoded, Store, auth_refresh, clear_caches, create_session, revoke_session,
  users_create_api_key, users_remove_api_key, users_remove_session, verify_api_key, verify_user,
  write_key, write_session,
}

-- A late write names its entry by its place, and may fail.
pub data Step : Type 0 where
  checks_user : Decoded → Step
  checks_key : (now h : ℕ) → Step
  writes_session writes_key : (n : ℕ) → (ok : Bool) → Step
  logs_in : (id : ℕ) → Session → Step
  refreshes : (token_hash new_hash : ℕ) → Step
  revokes : (now id : ℕ) → Step
  removes_session : (now user id : ℕ) → Step
  clears : (id : ℕ) → Cleared → Step
  creates_key : (now user id token_hash : ℕ) → Option ℕ → Step
  removes_key : (now user id : ℕ) → (ok : Bool) → Step
  forgets_session forgets_key : ℕ → Step

-- A handler that fails leaves the store as it is.
unfoldable pub kept : Store → Option Store → Store
kept st none = st
kept st (some t) = t

unfoldable pub refreshed : Store → Option (ℕ × Store) → Store
refreshed st none = st
refreshed st (some r) = r.1

unfoldable pub step : Step → Store → Store
step (Step.checks_user d) st = (verify_user d st).1
step (Step.checks_key now h) st = (verify_api_key now h st).1
step (Step.writes_session n ok) st = write_session n ok st
step (Step.writes_key n ok) st = write_key n ok st
step (Step.logs_in id s) st = kept st (create_session id s st)
step (Step.refreshes token_hash new_hash) st = refreshed st (auth_refresh token_hash new_hash st)
step (Step.revokes now id) st = revoke_session now id st
step (Step.removes_session now user id) st = kept st (users_remove_session now user id st)
step (Step.clears id r) st = clear_caches id r st
step (Step.creates_key now user id token_hash expires_at) st =
    kept st (users_create_api_key now user id token_hash expires_at st)
step (Step.removes_key now user id ok) st = kept st (users_remove_api_key now user id ok st)
step (Step.forgets_session id) st = record st { cached_sessions = delete id st.cached_sessions }
step (Step.forgets_key h) st = record st { cached_keys = delete h st.cached_keys }

unfoldable pub run : List Step → Store → Store
run [] st = st
run (x ∷ xs) st = run xs (step x st)

-- A new installation.
unfoldable pub empty_store : Store
empty_store = record {
  sessions = [];
  api_keys = [];
  cached_sessions = [];
  cached_keys = [];
  late_sessions = [];
  late_keys = [];
}
