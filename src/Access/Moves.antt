-- ===== src/Access/Moves.antt =====
-- What each step of a run does to the tables and the caches.

use teldrive_easy.Prelude.{
  ℕ, ◌≡◌, refl, sym, subst, List, [], Option, none, some, inl, inr, Option-cases, Bool-cases, ◌==◌,
  Bool, true, false, if◌then◌else◌,
}
use teldrive_easy.Events.Maps.{lookup, delete, put}
use teldrive_easy.Access.Rows.{Unique, put-Unique, update_row-Unique}
use teldrive_easy.Access.Tables.{
  ApiKey, Session, get_by_id, get_by_refresh_token_hash, revoke, revoke_key, revoked,
  update_refresh_token_hash, with_refresh_hash,
}
use teldrive_easy.Access.Service.{
  CachedKey, Cleared, Store, auth_refresh, clear_caches, create_session, in_future, removed_session,
  revoke_session, stored_key, users_create_api_key, users_remove_api_key, users_remove_session,
  verify_api_key, verify_user, write_key, write_session,
}
use teldrive_easy.Access.Coherent.{AllIn, AllIn-delete, AllIn-nil, Entries}
use teldrive_easy.Access.Checks.{
  Reads, verify_api_key-Entries, verify_user-Entries, write_key-Entries, write_session-Entries,
}
use teldrive_easy.Access.Unchanged.{
  verify_api_key_sessions, verify_user_sessions, write_key_sessions, write_session_sessions,
}
use teldrive_easy.Access.Changes.{
  Ended, Grows, Grows-put, Grows-refresh, Grows-revoke, Grows-same, put-Ended, revoked_dead,
  update_row-Ended, with_refresh_hash_dead,
}
use teldrive_easy.Access.Runs.{Step, kept, refreshed, step}

-- What a step does: no row is lost or comes back to life, and what holds for all entries, and for
-- what is read from the tables, still holds for all entries.
pub record Moves (st next : Store) : Type 1 where
  pub unique : Unique next.sessions
  pub grows : Grows st.sessions next.sessions
  pub ended : (k : ℕ) → Ended k st.sessions → Ended k next.sessions
  pub entries :
      (holds : ℕ × Session → Type 0) (keys_hold : ℕ × CachedKey → Type 0)
      → Reads holds keys_hold st
      → Entries holds keys_hold st
      → Entries holds keys_hold next

abbrev entries_of :
    {holds : ℕ × Session → Type 0} {keys_hold : ℕ × CachedKey → Type 0} {st : Store}
    (sessions : List (ℕ × Session)) (api_keys : List (ℕ × ApiKey))
    → Entries holds keys_hold st
    → Entries holds keys_hold (record st { sessions = sessions; api_keys = api_keys })
entries_of sessions api_keys c = record {
  sessions = c.sessions;
  keys = c.keys;
  late_sessions = c.late_sessions;
  late_keys = c.late_keys;
}

Moves-stay : (st : Store) → Unique st.sessions → Moves st st
Moves-stay st u = record {
  unique = u;
  grows = Grows-same st.sessions;
  ended = λ k h. h;
  entries = λ p q rd c. c;
}

Moves-keys :
    (st : Store) (keys : List (ℕ × ApiKey))
    → Unique st.sessions
    → Moves st (record st { api_keys = keys })
Moves-keys st keys u = record {
  unique = u;
  grows = Grows-same st.sessions;
  ended = λ k h. h;
  entries = λ p q rd c. entries_of st.sessions keys c;
}

create_session-Moves :
    (id : ℕ) (s : Session) (st : Store)
    → Unique st.sessions
    → Moves st (kept st (create_session id s st))
unfolding create_session kept
create_session-Moves id s st u = elim (Option-cases (lookup id st.sessions)) [
  | inl l ↦
      rw (l, create_session)
        (record {
          unique = put-Unique id s st.sessions u;
          grows = Grows-put id s st.sessions l;
          ended = λ k. put-Ended id k s st.sessions l;
          entries = λ p q rd c. entries_of (put id s st.sessions) st.api_keys c;
        })
  | inr (old, l) ↦ rw (l, create_session) (Moves-stay st u)
]

refreshes-Moves :
    (token_hash new_hash : ℕ) (st : Store)
    → Unique st.sessions
    → Moves st (refreshed st (auth_refresh token_hash new_hash st))
unfolding auth_refresh refreshed update_refresh_token_hash
refreshes-Moves token_hash new_hash st u =
    elim (Option-cases (get_by_refresh_token_hash token_hash st.sessions)) [
      | inl l ↦ rw (l, auth_refresh) (Moves-stay st u)
      | inr (r, l) ↦
          rw (l, auth_refresh)
            (record {
              unique = update_row-Unique r.0 (with_refresh_hash new_hash) st.sessions u;
              grows = Grows-refresh r.0 new_hash st.sessions;
              ended = λ k.
                  update_row-Ended r.0 k (with_refresh_hash new_hash) st.sessions
                    (with_refresh_hash_dead new_hash);
              entries = λ p q rd c.
                  entries_of (update_refresh_token_hash r.0 new_hash st.sessions) st.api_keys c;
            })
    ]

revoke_session-Moves :
    (now id : ℕ) (st : Store) → Unique st.sessions → Moves st (revoke_session now id st)
unfolding revoke_session revoke
revoke_session-Moves now id st u = record {
  unique = update_row-Unique id (revoked now) st.sessions u;
  grows = Grows-revoke now id st.sessions;
  ended = λ k. update_row-Ended id k (revoked now) st.sessions (revoked_dead now);
  entries = λ p q rd c. entries_of (revoke now id st.sessions) st.api_keys c;
}

removed-Moves :
    (now user id : ℕ) (st : Store) (o : Option Session)
    → Unique st.sessions
    → Moves st (kept st (removed_session now user id st o))
unfolding removed_session kept
removed-Moves now user id st none u = Moves-stay st u
removed-Moves now user id st (some s) u = elim (Bool-cases (s.user_id == user)) [
  | inl e ↦ rw e (revoke_session-Moves now id st u)
  | inr e ↦ rw e (Moves-stay st u)
]

stored_key-Moves :
    (id : ℕ) (k : ApiKey) (st : Store) (o : Option ApiKey)
    → Unique st.sessions
    → Moves st (kept st (stored_key id k st o))
unfolding stored_key kept
stored_key-Moves id k st none u = Moves-keys st (put id k st.api_keys) u
stored_key-Moves id k st (some old) u = Moves-stay st u

creates_key-Moves :
    (now user id token_hash : ℕ) (expires_at : Option ℕ) (st : Store)
    → Unique st.sessions
    → Moves st (kept st (users_create_api_key now user id token_hash expires_at st))
unfolding users_create_api_key kept
creates_key-Moves now user id token_hash expires_at st u =
    elim (Bool-cases (in_future now expires_at)) [
      | inl e ↦ rw e (stored_key-Moves id _ st (lookup id st.api_keys) u)
      | inr e ↦ rw e (Moves-stay st u)
    ]

emptied :
    (q : ℕ × CachedKey → Type 0) (ok : Bool) (m : List (ℕ × CachedKey))
    → AllIn q m
    → AllIn q (if ok then [] else m)
emptied q true m h = AllIn-nil q
emptied q false m h = h

removes_key-Moves :
    (now user id : ℕ) (ok : Bool) (st : Store)
    → Unique st.sessions
    → Moves st (kept st (users_remove_api_key now user id ok st))
unfolding users_remove_api_key kept
removes_key-Moves now user id ok st u = elim (Option-cases (revoke_key now user id st.api_keys)) [
  | inl e ↦ rw (e, users_remove_api_key) (Moves-stay st u)
  | inr (keys, e) ↦
      rw (e, users_remove_api_key)
        (record {
          unique = u;
          grows = Grows-same st.sessions;
          ended = λ k h. h;
          entries = λ p q rd c. record {
            sessions = c.sessions;
            keys = emptied q ok st.cached_keys c.keys;
            late_sessions = c.late_sessions;
            late_keys = c.late_keys;
          };
        })
]

clear_caches-Moves :
    (id : ℕ) (r : Cleared) (st : Store) → Unique st.sessions → Moves st (clear_caches id r st)
unfolding clear_caches
clear_caches-Moves id r st u = record {
  unique = u;
  grows = Grows-same st.sessions;
  ended = λ k h. h;
  entries = λ p q rd c. record {
    sessions = elim (Bool-cases r.session) [
      | inl e ↦ rw e (AllIn-delete p id st.cached_sessions c.sessions)
      | inr e ↦ rw e c.sessions
    ];
    keys = emptied q r.keys st.cached_keys c.keys;
    late_sessions = c.late_sessions;
    late_keys = c.late_keys;
  };
}

-- A step that leaves the table of sessions.
Moves-Reads :
    (st next : Store)
    → next.sessions ≡ st.sessions
    → Unique st.sessions
    → ((holds : ℕ × Session → Type 0) (keys_hold : ℕ × CachedKey → Type 0)
        → Reads holds keys_hold st
        → Entries holds keys_hold st
        → Entries holds keys_hold next)
    → Moves st next
Moves-Reads st next e u f = record {
  unique = subst Unique (sym e) u;
  grows = subst (Grows st.sessions) (sym e) (Grows-same st.sessions);
  ended = λ k. subst (Ended k) (sym e);
  entries = f;
}

pub step-Moves : (x : Step) (st : Store) → Unique st.sessions → Moves st (step x st)
unfolding step users_remove_session
step-Moves (Step.checks_user d) st u =
    Moves-Reads st (verify_user d st).1 (verify_user_sessions d st) u
      (λ p q rd c. verify_user-Entries p q d st rd c)
step-Moves (Step.checks_key now h) st u =
    Moves-Reads st (verify_api_key now h st).1 (verify_api_key_sessions now h st) u
      (λ p q rd c. verify_api_key-Entries p q now h st u rd c)
step-Moves (Step.writes_session n ok) st u =
    Moves-Reads st (write_session n ok st) (write_session_sessions n ok st) u
      (λ p q rd c. write_session-Entries p q n ok st c)
step-Moves (Step.writes_key n ok) st u =
    Moves-Reads st (write_key n ok st) (write_key_sessions n ok st) u
      (λ p q rd c. write_key-Entries p q n ok st c)
step-Moves (Step.logs_in id s) st u = create_session-Moves id s st u
step-Moves (Step.refreshes token_hash new_hash) st u = refreshes-Moves token_hash new_hash st u
step-Moves (Step.revokes now id) st u = revoke_session-Moves now id st u
step-Moves (Step.removes_session now user id) st u =
    removed-Moves now user id st (get_by_id id st.sessions) u
step-Moves (Step.clears id r) st u = clear_caches-Moves id r st u
step-Moves (Step.creates_key now user id token_hash expires_at) st u =
    creates_key-Moves now user id token_hash expires_at st u
step-Moves (Step.removes_key now user id ok) st u = removes_key-Moves now user id ok st u
step-Moves (Step.forgets_session id) st u =
    Moves-Reads st (record st { cached_sessions = delete id st.cached_sessions }) refl u
      (λ p q rd c. record {
        sessions = AllIn-delete p id st.cached_sessions c.sessions;
        keys = c.keys;
        late_sessions = c.late_sessions;
        late_keys = c.late_keys;
      })
step-Moves (Step.forgets_key h) st u =
    Moves-Reads st (record st { cached_keys = delete h st.cached_keys }) refl u
      (λ p q rd c. record {
        sessions = c.sessions;
        keys = AllIn-delete q h st.cached_keys c.keys;
        late_sessions = c.late_sessions;
        late_keys = c.late_keys;
      })
