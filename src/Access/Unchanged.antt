-- ===== src/Access/Unchanged.antt =====
-- Checks and writes of cache entries leave the tables of sessions alone.

use teldrive_easy.Prelude.{
  ℕ, ◌≡◌, inl, inr, refl, ap, ◌∙◌, List, [], ◌∷◌, Option, none, some, Option-cases, Bool-cases, ltb,
  Bool, get_elem?,
}
use teldrive_easy.Events.Maps.{lookup}
use teldrive_easy.Access.Tables.{
  ApiKey, Session, get_active_by_token_hash, get_by_id, get_by_user_id,
}
use teldrive_easy.Access.Service.{
  CachedKey, Decoded, Store, cached_or, fetched_session, landed_key, landed_session, looked_up,
  new_entry, session_by_id, verify_api_key, verify_user, write_key, write_session,
}

pub session_by_id_cached :
    (id : ℕ) (st : Store) (s : Session)
    → lookup id st.cached_sessions ≡ some s
    → session_by_id id st ≡ (some s, st)
unfolding session_by_id
session_by_id_cached id st s l = rw (l, session_by_id) refl

pub session_by_id_fetched :
    (id : ℕ) (st : Store)
    → lookup id st.cached_sessions ≡ none
    → session_by_id id st ≡ fetched_session id st (get_by_id id st.sessions)
unfolding session_by_id
session_by_id_fetched id st l = rw (l, session_by_id) refl

-- The checks do not touch the table of sessions.
fetched_sessions :
    (id : ℕ) (st : Store) (o : Option Session) → (fetched_session id st o).1.sessions ≡ st.sessions
unfolding fetched_session
fetched_sessions id st none = refl
fetched_sessions id st (some s) = refl

session_by_id_sessions : (id : ℕ) (st : Store) → (session_by_id id st).1.sessions ≡ st.sessions
session_by_id_sessions id st = elim (Option-cases (lookup id st.cached_sessions)) [
  | inl l ↦
      ap (λ (r : Option Session × Store). r.1.sessions) (session_by_id_fetched id st l)
      ∙ fetched_sessions id st (get_by_id id st.sessions)
  | inr (s, l) ↦ ap (λ (r : Option Session × Store). r.1.sessions) (session_by_id_cached id st s l)
]

pub verify_user_sessions : (d : Decoded) (st : Store) → (verify_user d st).1.sessions ≡ st.sessions
unfolding verify_user
verify_user_sessions Decoded.expired st = refl
verify_user_sessions Decoded.malformed st = refl
verify_user_sessions (Decoded.valid c) st = session_by_id_sessions c.session_id st

looked_up_sessions :
    (now h : ℕ) (st : Store) (o : Option (ℕ × ApiKey))
    → (looked_up now h st o).1.sessions ≡ st.sessions
unfolding looked_up new_entry
looked_up_sessions now h st none = refl
looked_up_sessions now h st (some (id, k)) = of_rows (get_by_user_id k.user_id st.sessions)
  where
    of_rows : (rows : List (ℕ × Session)) → (new_entry now h id k st rows).1.sessions ≡ st.sessions
    of_rows [] = refl
    of_rows ((j, s) ∷ rows) = refl

cached_or_sessions :
    (now h : ℕ) (st : Store) (o : Option CachedKey)
    → (cached_or now h st o).1.sessions ≡ st.sessions
unfolding cached_or
cached_or_sessions now h st none =
    looked_up_sessions now h st (get_active_by_token_hash now h st.api_keys)
cached_or_sessions now h st (some e) = elim (Bool-cases (ltb now e.expires)) [
  | inl t ↦ rw t refl
  | inr t ↦ rw t (looked_up_sessions now h st (get_active_by_token_hash now h st.api_keys))
]

pub verify_api_key_sessions :
    (now h : ℕ) (st : Store) → (verify_api_key now h st).1.sessions ≡ st.sessions
unfolding verify_api_key
verify_api_key_sessions now h st = cached_or_sessions now h st (lookup h st.cached_keys)

pub write_session_sessions :
    (n : ℕ) (ok : Bool) (st : Store) → (write_session n ok st).sessions ≡ st.sessions
unfolding write_session landed_session
write_session_sessions n ok st = of_entry (get_elem? st.late_sessions n)
  where
    of_entry : (o : Option (ℕ × Session)) → (landed_session n ok st o).sessions ≡ st.sessions
    of_entry none = refl
    of_entry (some (id, s)) = refl

pub write_key_sessions :
    (n : ℕ) (ok : Bool) (st : Store) → (write_key n ok st).sessions ≡ st.sessions
unfolding write_key landed_key
write_key_sessions n ok st = of_entry (get_elem? st.late_keys n)
  where
    of_entry : (o : Option (ℕ × CachedKey)) → (landed_key n ok st o).sessions ≡ st.sessions
    of_entry none = refl
    of_entry (some (h, e)) = refl
