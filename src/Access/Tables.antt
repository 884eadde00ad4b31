-- ===== src/Access/Tables.antt =====
-- The repositories of sessions and API keys, pkg/repositories/session_repo.go and api_key_repo.go.
-- Ids, the hashes of tokens and the sessions of Telegram are opaque numbers, times are in seconds.
use teldrive_easy.Prelude.{
  ℕ, Bool, true, false, ◌&&◌, List, [], ◌∷◌, Option, none, some, ◌==◌, ltb, leb, if◌then◌else◌,
}
use teldrive_easy.Events.Maps.{lookup}
use teldrive_easy.Access.Rows.{update_row}

pub record Session : Type 0 where
  pub user_id : ℕ
  pub tg_session : ℕ
  pub refresh_token_hash : Option ℕ
  pub created_at : ℕ
  pub revoked_at : Option ℕ

pub record ApiKey : Type 0 where
  pub user_id : ℕ
  pub token_hash : ℕ
  pub expires_at : Option ℕ
  pub revoked_at : Option ℕ
  pub last_used_at : Option ℕ

unfoldable pub is_null : Option ℕ → Bool
is_null none = true
is_null (some t) = false

unfoldable pub is_value : ℕ → Option ℕ → Bool
is_value n none = false
is_value n (some m) = m == n

unfoldable pub if_active : Option Session → Option Session
if_active none = none
if_active (some s) = if is_null s.revoked_at then some s else none

unfoldable pub get_by_id : ℕ → List (ℕ × Session) → Option Session
get_by_id id t = if_active (lookup id t)

unfoldable pub get_by_refresh_token_hash : ℕ → List (ℕ × Session) → Option (ℕ × Session)
get_by_refresh_token_hash h [] = none
get_by_refresh_token_hash h ((id, s) ∷ t) =
    let rest = get_by_refresh_token_hash h t in
    if is_value h s.refresh_token_hash && is_null s.revoked_at then some (id, s) else rest

-- `ORDER BY created_at DESC`.
unfoldable pub by_date : ℕ × Session → List (ℕ × Session) → List (ℕ × Session)
by_date r [] = r ∷ []
by_date r (q ∷ rows) =
    let rest = by_date r rows in
    if leb q.1.created_at r.1.created_at then r ∷ q ∷ rows else q ∷ rest

unfoldable pub get_by_user_id : ℕ → List (ℕ × Session) → List (ℕ × Session)
get_by_user_id user [] = []
get_by_user_id user ((id, s) ∷ t) =
    let rest = get_by_user_id user t in
    if (s.user_id == user) && is_null s.revoked_at then by_date (id, s) rest else rest

unfoldable pub with_refresh_hash : ℕ → Session → Session
with_refresh_hash h s = if is_null s.revoked_at then record s { refresh_token_hash = some h } else s

unfoldable pub update_refresh_token_hash : ℕ → ℕ → List (ℕ × Session) → List (ℕ × Session)
update_refresh_token_hash id h t = update_row id (with_refresh_hash h) t

unfoldable pub revoked : ℕ → Session → Session
revoked now s =
    if is_null s.revoked_at
    then record s { revoked_at = some now; refresh_token_hash = none }
    else s

unfoldable pub revoke : ℕ → ℕ → List (ℕ × Session) → List (ℕ × Session)
revoke now id t = update_row id (revoked now) t

-- API keys.
unfoldable pub is_live : ℕ → Option ℕ → Bool
is_live now none = true
is_live now (some t) = ltb now t

unfoldable pub get_active_by_token_hash : ℕ → ℕ → List (ℕ × ApiKey) → Option (ℕ × ApiKey)
get_active_by_token_hash now h [] = none
get_active_by_token_hash now h ((id, k) ∷ t) =
    let rest = get_active_by_token_hash now h t in
    if (k.token_hash == h) && (is_null k.revoked_at && is_live now k.expires_at)
    then some (id, k)
    else rest

unfoldable pub touched : ℕ → ApiKey → ApiKey
touched now k = record k { last_used_at = some now }

unfoldable pub touch_last_used : ℕ → ℕ → List (ℕ × ApiKey) → List (ℕ × ApiKey)
touch_last_used now id t = update_row id (touched now) t

-- `Revoke` of a key, for its owner only; no row is `none`.
unfoldable pub key_to_revoke : ℕ → Option ApiKey → Bool
key_to_revoke user none = false
key_to_revoke user (some k) = (k.user_id == user) && is_null k.revoked_at

unfoldable pub revoked_key : ℕ → ApiKey → ApiKey
revoked_key now k = record k { revoked_at = some now }

unfoldable pub revoke_key : (now user id : ℕ) → List (ℕ × ApiKey) → Option (List (ℕ × ApiKey))
revoke_key now user id t =
    if key_to_revoke user (lookup id t) then some (update_row id (revoked_key now) t) else none
