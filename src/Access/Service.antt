-- ===== src/Access/Service.antt =====
-- The checks of internal/auth/auth.go, and what pkg/services/auth.go and user.go do to sessions and
-- API keys. The signatures of tokens and the hash are parameters; the caches may forget an entry at
-- any time, and a write or a deletion of one may fail.
use teldrive_easy.Prelude.{
  ℕ, zero, suc, get_elem?, ◌+◌, ◌*◌, Bool, true, false, ◌||◌, List, [], ◌∷◌, Option, none, some,
  ◌==◌, ltb, if◌then◌else◌,
}
use teldrive_easy.Events.Maps.{lookup, put, delete}
use teldrive_easy.Access.Tables.{
  ApiKey, Session, get_active_by_token_hash, get_by_id, get_by_refresh_token_hash, get_by_user_id,
  revoke, revoke_key, touch_last_used, update_refresh_token_hash,
}

-- `cachedAPIKeyAuth`, and when the entry goes.
pub record CachedKey : Type 0 where
  pub session_id : ℕ
  pub tg_session : ℕ
  pub user_id : ℕ
  pub expires : ℕ

-- The tables, the caches, and the entries that checks have read from the tables and have still to
-- write to the caches.
pub record Store : Type 0 where
  pub sessions : List (ℕ × Session)
  pub api_keys : List (ℕ × ApiKey)
  pub cached_sessions : List (ℕ × Session)
  pub cached_keys : List (ℕ × CachedKey)
  pub late_sessions : List (ℕ × Session)
  pub late_keys : List (ℕ × CachedKey)

pub record Claims : Type 0 where
  pub subject : ℕ
  pub session_id : ℕ
  pub tg_session : ℕ

pub data AuthError : Type 0 where
  token_expired token_invalid session_invalid api_key_invalid api_key_session_missing : AuthError

pub data Verified : Type 0 where
  accepted : Claims → Verified
  refused : AuthError → Verified

-- What `jwt.ParseWithClaims` makes of a token.
pub data Decoded : Type 0 where
  valid : Claims → Decoded
  expired malformed : Decoded

-- `SessionByID` up to its write of the cache, and a write, which may fail.
unfoldable pub fetched_session : ℕ → Store → Option Session → Option Session × Store
fetched_session id st none = (none, st)
fetched_session id st (some s) = (some s, record st { late_sessions = (id, s) ∷ st.late_sessions })

unfoldable pub session_by_id : ℕ → Store → Option Session × Store
session_by_id id st = elim (lookup id st.cached_sessions) [
  | some s ↦ (some s, st)
  | none ↦ fetched_session id st (get_by_id id st.sessions)
]

unfoldable pub drop_at : {A : Type 0} → ℕ → List A → List A
drop_at n [] = []
drop_at zero (x ∷ xs) = xs
drop_at (suc n) (x ∷ xs) = x ∷ drop_at n xs

unfoldable pub landed_session : ℕ → Bool → Store → Option (ℕ × Session) → Store
landed_session n ok st none = st
landed_session n ok st (some (id, s)) = record st {
  cached_sessions = if ok then put id s st.cached_sessions else st.cached_sessions;
  late_sessions = drop_at n st.late_sessions;
}

unfoldable pub write_session : (n : ℕ) → (ok : Bool) → Store → Store
write_session n ok st = landed_session n ok st (get_elem? st.late_sessions n)

-- `VerifyUser` and the errors of `handleJWTAuth`.
unfoldable pub with_session : Claims → Option Session → Verified
with_session c none = refused session_invalid
with_session c (some s) = accepted (record c { tg_session = s.tg_session })

unfoldable pub verify_user : Decoded → Store → Verified × Store
verify_user expired st = (refused token_expired, st)
verify_user malformed st = (refused token_invalid, st)
verify_user (valid c) st = let r = session_by_id c.session_id st in (with_session c r.0, r.1)

-- `verifyAPIKey`, with the hash of the token; entries are kept for a day.
abbrev pub one_day : ℕ
one_day = 24 * 3600

unfoldable pub claims_of : CachedKey → Claims
claims_of e = record { subject = e.user_id; session_id = e.session_id; tg_session = e.tg_session }

unfoldable pub new_entry : (now h id : ℕ) → ApiKey → Store → List (ℕ × Session) → Verified × Store
new_entry now h id k st [] = (refused api_key_session_missing, st)
new_entry now h id k st ((session_id, s) ∷ rows) =
    let e : CachedKey = record {
      session_id = session_id;
      tg_session = s.tg_session;
      user_id = k.user_id;
      expires = now + one_day;
    } in
    (
      accepted (claims_of e),
      record st {
        api_keys = touch_last_used now id st.api_keys;
        late_keys = (h, e) ∷ st.late_keys;
      },
    )

unfoldable pub looked_up : (now h : ℕ) → Store → Option (ℕ × ApiKey) → Verified × Store
looked_up now h st none = (refused api_key_invalid, st)
looked_up now h st (some (id, k)) = new_entry now h id k st (get_by_user_id k.user_id st.sessions)

unfoldable pub cached_or : (now h : ℕ) → Store → Option CachedKey → Verified × Store
cached_or now h st none = looked_up now h st (get_active_by_token_hash now h st.api_keys)
cached_or now h st (some e) =
    if ltb now e.expires
    then (accepted (claims_of e), st)
    else looked_up now h st (get_active_by_token_hash now h st.api_keys)

unfoldable pub verify_api_key : (now h : ℕ) → Store → Verified × Store
verify_api_key now h st = cached_or now h st (lookup h st.cached_keys)

-- The write at the end of `cache.Fetch`.
unfoldable pub landed_key : ℕ → Bool → Store → Option (ℕ × CachedKey) → Store
landed_key n ok st none = st
landed_key n ok st (some (h, e)) = record st {
  cached_keys = if ok then put h e st.cached_keys else st.cached_keys;
  late_keys = drop_at n st.late_keys;
}

unfoldable pub write_key : (n : ℕ) → (ok : Bool) → Store → Store
write_key n ok st = landed_key n ok st (get_elem? st.late_keys n)

-- `HandleSessionHashAuth`: an operation is not the one, or it is not the other.
unfoldable pub by_session : ℕ → Option Session → Verified
by_session id none = refused session_invalid
by_session id (some s) =
    accepted (record { subject = s.user_id; session_id = id; tg_session = s.tg_session })

unfoldable pub is_not : ℕ → ℕ → Bool
is_not a b = if a == b then false else true

unfoldable pub handle_session_hash_auth :
    (files_stream files_stream_head operation id : ℕ) → Store → Verified × Store
handle_session_hash_auth files_stream files_stream_head operation id st =
    let r = session_by_id id st in
    if is_not operation files_stream || is_not operation files_stream_head
    then (refused session_invalid, st)
    else (by_session id r.0, r.1)

-- The end of `AuthLogin`: a row with a new id.
unfoldable pub create_session : ℕ → Session → Store → Option Store
create_session id s st = elim (lookup id st.sessions) [
  | none ↦ some (record st { sessions = put id s st.sessions })
  | some old ↦ none
]

-- `AuthRefresh`: the session whose token this is, and its next token.
unfoldable pub auth_refresh : (token_hash new_hash : ℕ) → Store → Option (ℕ × Store)
auth_refresh token_hash new_hash st = elim (get_by_refresh_token_hash token_hash st.sessions) [
  | none ↦ none
  | some (id, s) ↦
      some (id, record st { sessions = update_refresh_token_hash id new_hash st.sessions })
]

-- What `AuthLogout` and `UsersRemoveSession` do to a session: the row is revoked, and then the
-- caches are cleared, where the errors of either deletion are ignored. A logout whose subject is not a
-- number ends before both deletions.
pub record Cleared : Type 0 where
  pub session : Bool
  pub keys : Bool

unfoldable pub revoke_session : (now id : ℕ) → Store → Store
revoke_session now id st = record st { sessions = revoke now id st.sessions }

unfoldable pub clear_caches : ℕ → Cleared → Store → Store
clear_caches id r st = record st {
  cached_sessions = if r.session then delete id st.cached_sessions else st.cached_sessions;
  cached_keys = if r.keys then [] else st.cached_keys;
}

unfoldable pub end_session : (now id : ℕ) → Cleared → Store → Store
end_session now id r st = clear_caches id r (revoke_session now id st)

-- `UsersRemoveSession` up to the revocation.
unfoldable pub removed_session : (now user id : ℕ) → Store → Option Session → Option Store
removed_session now user id st none = none
removed_session now user id st (some s) =
    if s.user_id == user then some (revoke_session now id st) else none

unfoldable pub users_remove_session : (now user id : ℕ) → Store → Option Store
users_remove_session now user id st = removed_session now user id st (get_by_id id st.sessions)

-- `UsersCreateApiKey`: a key with a new id that is not past its end.
unfoldable pub in_future : ℕ → Option ℕ → Bool
in_future now none = true
in_future now (some t) = ltb now t

unfoldable pub stored_key : ℕ → ApiKey → Store → Option ApiKey → Option Store
stored_key id k st none = some (record st { api_keys = put id k st.api_keys })
stored_key id k st (some old) = none

unfoldable pub users_create_api_key :
    (now user id token_hash : ℕ) → (expires_at : Option ℕ) → Store → Option Store
users_create_api_key now user id token_hash expires_at st =
    let k : ApiKey = record {
      user_id = user;
      token_hash = token_hash;
      expires_at = expires_at;
      revoked_at = none;
      last_used_at = none;
    } in
    if in_future now expires_at then stored_key id k st (lookup id st.api_keys) else none

-- `UsersRemoveApiKey`, whose deletion of cache entries may fail.
unfoldable pub users_remove_api_key : (now user id : ℕ) → (ok : Bool) → Store → Option Store
users_remove_api_key now user id ok st = elim (revoke_key now user id st.api_keys) [
  | none ↦ none
  | some keys ↦
      some (record st { api_keys = keys; cached_keys = if ok then [] else st.cached_keys })
]
