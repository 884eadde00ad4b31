-- ===== src/Access/Checks.antt =====
-- What the checks of a request put into the caches.

use teldrive_easy.Prelude.{
  ℕ, ◌≡◌, inl, inr, refl, sym, List, [], ◌∷◌, Option, none, some, Option-cases, Bool-cases, subst,
  ltb, Bool, true, false, get_elem?,
}
use teldrive_easy.Events.Maps.{lookup}
use teldrive_easy.Access.Rows.{lookup-Stands, Unique}
use teldrive_easy.Access.Tables.{
  ApiKey, Session, get_active_by_token_hash, get_by_id, get_by_user_id,
}
use teldrive_easy.Access.Service.{
  CachedKey, Decoded, Store, cached_or, fetched_session, landed_key, landed_session, looked_up,
  new_entry, session_by_id, verify_api_key, verify_user, write_key, write_session,
}
use teldrive_easy.Access.Coherent.{
  AllIn-put, AllOf-drop_at, AllOf-get, Entries, Owned, get_by_user_id-Owned,
}
use teldrive_easy.Access.Unchanged.{session_by_id_cached, session_by_id_fetched}

-- An entry that a check makes is of an active session, and of that session's user.
abbrev pub MadeOf : List (ℕ × Session) → CachedKey → Type 0
MadeOf t e =
    (s : Session) × (lookup e.session_id t ≡ some s)
    × (s.revoked_at ≡ none)
    × (s.user_id ≡ e.user_id)
    × (s.tg_session ≡ e.tg_session)

module _ (holds : ℕ × Session → Type 0) (keys_hold : ℕ × CachedKey → Type 0) where
  -- What is read from the tables has what the entries have.
  abbrev pub Reads : Store → Type 0
  Reads st =
      ((id : ℕ) (s : Session) → get_by_id id st.sessions ≡ some s → holds (id, s))
      × ((h : ℕ) (e : CachedKey) → MadeOf st.sessions e → keys_hold (h, e))

  fetched-Entries :
      (id : ℕ) (st : Store) (o : Option Session)
      → o ≡ get_by_id id st.sessions
      → Reads st
      → Entries holds keys_hold st
      → Entries holds keys_hold (fetched_session id st o).1
  unfolding fetched_session
  fetched-Entries id st none e r c = c
  fetched-Entries id st (some s) e r c = record {
    sessions = c.sessions;
    keys = c.keys;
    late_sessions = (r.0 id s (sym e), c.late_sessions);
    late_keys = c.late_keys;
  }

  session_by_id-Entries :
      (id : ℕ) (st : Store)
      → Reads st
      → Entries holds keys_hold st
      → Entries holds keys_hold (session_by_id id st).1
  session_by_id-Entries id st r c = elim (Option-cases (lookup id st.cached_sessions)) [
    | inl l ↦
        subst (λ (x : Option Session × Store). Entries holds keys_hold x.1)
          (sym (session_by_id_fetched id st l))
          (fetched-Entries id st (get_by_id id st.sessions) refl r c)
    | inr (s, l) ↦
        subst (λ (x : Option Session × Store). Entries holds keys_hold x.1)
          (sym (session_by_id_cached id st s l)) c
  ]

  pub verify_user-Entries :
      (d : Decoded) (st : Store)
      → Reads st
      → Entries holds keys_hold st
      → Entries holds keys_hold (verify_user d st).1
  unfolding verify_user
  verify_user-Entries Decoded.expired st r c = c
  verify_user-Entries Decoded.malformed st r c = c
  verify_user-Entries (Decoded.valid cl) st r c = session_by_id-Entries cl.session_id st r c

  new_entry-Entries :
      (now h id : ℕ) (k : ApiKey) (st : Store) (rows : List (ℕ × Session))
      → Unique st.sessions
      → Owned k.user_id st.sessions rows
      → Reads st
      → Entries holds keys_hold st
      → Entries holds keys_hold (new_entry now h id k st rows).1
  unfolding new_entry
  new_entry-Entries now h id k st [] u o r c = c
  new_entry-Entries now h id k st ((sid, s) ∷ rows) u o r c = record {
    sessions = c.sessions;
    keys = c.keys;
    late_sessions = c.late_sessions;
    late_keys =
        (r.1 h _ (s, lookup-Stands sid s st.sessions u o.0.0, o.0.2, o.0.1, refl), c.late_keys);
  }

  looked_up-Entries :
      (now h : ℕ) (st : Store) (o : Option (ℕ × ApiKey))
      → Unique st.sessions
      → Reads st
      → Entries holds keys_hold st
      → Entries holds keys_hold (looked_up now h st o).1
  unfolding looked_up
  looked_up-Entries now h st none u r c = c
  looked_up-Entries now h st (some (id, k)) u r c =
      new_entry-Entries now h id k st (get_by_user_id k.user_id st.sessions) u
        (get_by_user_id-Owned k.user_id st.sessions) r c

  cached_or-Entries :
      (now h : ℕ) (st : Store) (o : Option CachedKey)
      → Unique st.sessions
      → Reads st
      → Entries holds keys_hold st
      → Entries holds keys_hold (cached_or now h st o).1
  unfolding cached_or
  cached_or-Entries now h st none u r c =
      looked_up-Entries now h st (get_active_by_token_hash now h st.api_keys) u r c
  cached_or-Entries now h st (some x) u r c = elim (Bool-cases (ltb now x.expires)) [
    | inl t ↦ rw t c
    | inr t ↦ rw t (looked_up-Entries now h st (get_active_by_token_hash now h st.api_keys) u r c)
  ]

  pub verify_api_key-Entries :
      (now h : ℕ) (st : Store)
      → Unique st.sessions
      → Reads st
      → Entries holds keys_hold st
      → Entries holds keys_hold (verify_api_key now h st).1
  unfolding verify_api_key
  verify_api_key-Entries now h st u r c = cached_or-Entries now h st (lookup h st.cached_keys) u r c

  -- A late write.
  landed_session-Entries :
      (n : ℕ) (ok : Bool) (st : Store) (o : Option (ℕ × Session))
      → get_elem? st.late_sessions n ≡ o
      → Entries holds keys_hold st
      → Entries holds keys_hold (landed_session n ok st o)
  unfolding landed_session
  landed_session-Entries n ok st none e c = c
  landed_session-Entries n true st (some (id, s)) e c = record {
    sessions =
        AllIn-put holds id s st.cached_sessions
          (AllOf-get holds st.late_sessions n (id, s) c.late_sessions e) c.sessions;
    keys = c.keys;
    late_sessions = AllOf-drop_at holds st.late_sessions n c.late_sessions;
    late_keys = c.late_keys;
  }
  landed_session-Entries n false st (some (id, s)) e c = record {
    sessions = c.sessions;
    keys = c.keys;
    late_sessions = AllOf-drop_at holds st.late_sessions n c.late_sessions;
    late_keys = c.late_keys;
  }

  pub write_session-Entries :
      (n : ℕ) (ok : Bool) (st : Store)
      → Entries holds keys_hold st
      → Entries holds keys_hold (write_session n ok st)
  unfolding write_session
  write_session-Entries n ok st c =
      landed_session-Entries n ok st (get_elem? st.late_sessions n) refl c

  landed_key-Entries :
      (n : ℕ) (ok : Bool) (st : Store) (o : Option (ℕ × CachedKey))
      → get_elem? st.late_keys n ≡ o
      → Entries holds keys_hold st
      → Entries holds keys_hold (landed_key n ok st o)
  unfolding landed_key
  landed_key-Entries n ok st none e c = c
  landed_key-Entries n true st (some (h, x)) e c = record {
    sessions = c.sessions;
    keys =
        AllIn-put keys_hold h x st.cached_keys
          (AllOf-get keys_hold st.late_keys n (h, x) c.late_keys e) c.keys;
    late_sessions = c.late_sessions;
    late_keys = AllOf-drop_at keys_hold st.late_keys n c.late_keys;
  }
  landed_key-Entries n false st (some (h, x)) e c = record {
    sessions = c.sessions;
    keys = c.keys;
    late_sessions = c.late_sessions;
    late_keys = AllOf-drop_at keys_hold st.late_keys n c.late_keys;
  }

  pub write_key-Entries :
      (n : ℕ) (ok : Bool) (st : Store)
      → Entries holds keys_hold st
      → Entries holds keys_hold (write_key n ok st)
  unfolding write_key
  write_key-Entries n ok st c = landed_key-Entries n ok st (get_elem? st.late_keys n) refl c
