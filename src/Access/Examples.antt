-- ===== src/Access/Examples.antt =====
-- Runs of sessions and API keys.
use teldrive_easy.Prelude.{◌≡◌, ◌≢◌, refl, true, List, [], ◌∷◌, none, some, arith, false}
use teldrive_easy.Events
use teldrive_easy.Access
use teldrive_easy.Events.Maps.{lookup}
use teldrive_easy.Access.Tables.{ApiKey, Session}
use teldrive_easy.Access.Service.{
  AuthError, Claims, Cleared, Decoded, Store, Verified, clear_caches, end_session, revoke_session,
  handle_session_hash_auth, verify_api_key, verify_user,
}
use teldrive_easy.Access.Runs.{Step, empty_store, run}
use teldrive_easy.Access.Backed.{verify_user-run}
use teldrive_easy.Access.Ended.{run-end_session}
use teldrive_easy.Access.SessionHash.{handle_session_hash_auth_refuses}

abbrev session : Session
session = record {
  user_id = 7;
  tg_session = 70;
  refresh_token_hash = some 5;
  created_at = 1;
  revoked_at = none;
}

abbrev claims : Claims
claims = record { subject = 7; session_id = 0; tg_session = 70 }

abbrev both : Cleared
both = record { session = true; keys = true }

abbrev neither : Cleared
neither = record { session = false; keys = false }

-- A login, and a key that is good until the time 10, used at the time 5 and then cached.
abbrev steps : List Step
steps =
    Step.logs_in 0 session
    ∷ Step.creates_key 2 7 1 99 (some 10)
    ∷ Step.checks_key 5 99
    ∷ Step.writes_key 0 true
    ∷ []

-- The key is accepted at the time 20, as its entry in the cache is a day old only later.
expired_key_test : (verify_api_key 20 99 (run steps empty_store)).0 ≡ Verified.accepted claims
unfolding Access.Rows.set_row Access.Rows.update_row Access.Tables.is_null Access.Tables.is_value
    Access.Tables.if_active Access.Tables.get_by_id Access.Tables.by_date
    Access.Tables.get_by_user_id Access.Tables.revoked Access.Tables.revoke Access.Tables.is_live
    Access.Tables.get_active_by_token_hash Access.Tables.touched Access.Tables.touch_last_used
    Access.Service.fetched_session Access.Service.session_by_id Access.Service.with_session
    Access.Service.verify_user Access.Service.claims_of Access.Service.new_entry
    Access.Service.looked_up Access.Service.cached_or Access.Service.verify_api_key
    Access.Service.create_session Access.Service.revoke_session Access.Service.clear_caches
    Access.Service.end_session Access.Service.in_future Access.Service.drop_at
    Access.Service.landed_session Access.Service.write_session Access.Service.landed_key
    Access.Service.write_key Access.Service.stored_key Access.Service.users_create_api_key
    Access.Runs.kept Access.Runs.step Access.Runs.run Access.Runs.empty_store Events.Maps.lookup
    Events.Maps.put Events.Maps.delete
expired_key_test = refl

-- A check that read the session before it ended, and writes its cache entry after that: the token
-- passes from then on.
late_entry_test :
    (verify_user (Decoded.valid claims) (
      run (Step.writes_session 0 true ∷ []) (
        end_session 6 0 both (
          run
            (Step.logs_in 0 session ∷ Step.checks_user (Decoded.valid claims) ∷ [])
            empty_store)))).0
    ≡ Verified.accepted claims
unfolding Access.Rows.set_row Access.Rows.update_row Access.Tables.is_null Access.Tables.is_value
    Access.Tables.if_active Access.Tables.get_by_id Access.Tables.by_date
    Access.Tables.get_by_user_id Access.Tables.revoked Access.Tables.revoke Access.Tables.is_live
    Access.Tables.get_active_by_token_hash Access.Tables.touched Access.Tables.touch_last_used
    Access.Service.fetched_session Access.Service.session_by_id Access.Service.with_session
    Access.Service.verify_user Access.Service.claims_of Access.Service.new_entry
    Access.Service.looked_up Access.Service.cached_or Access.Service.verify_api_key
    Access.Service.create_session Access.Service.revoke_session Access.Service.clear_caches
    Access.Service.end_session Access.Service.in_future Access.Service.drop_at
    Access.Service.landed_session Access.Service.write_session Access.Service.landed_key
    Access.Service.write_key Access.Service.stored_key Access.Service.users_create_api_key
    Access.Runs.kept Access.Runs.step Access.Runs.run Access.Runs.empty_store Events.Maps.lookup
    Events.Maps.put Events.Maps.delete
late_entry_test = refl

-- A logout whose deletions of cache entries fail: the key of the session still passes.
not_cleared_test :
    (verify_api_key 20 99 (end_session 6 0 neither (run steps empty_store))).0
    ≡ Verified.accepted claims
unfolding Access.Rows.set_row Access.Rows.update_row Access.Tables.is_null Access.Tables.is_value
    Access.Tables.if_active Access.Tables.get_by_id Access.Tables.by_date
    Access.Tables.get_by_user_id Access.Tables.revoked Access.Tables.revoke Access.Tables.is_live
    Access.Tables.get_active_by_token_hash Access.Tables.touched Access.Tables.touch_last_used
    Access.Service.fetched_session Access.Service.session_by_id Access.Service.with_session
    Access.Service.verify_user Access.Service.claims_of Access.Service.new_entry
    Access.Service.looked_up Access.Service.cached_or Access.Service.verify_api_key
    Access.Service.create_session Access.Service.revoke_session Access.Service.clear_caches
    Access.Service.end_session Access.Service.in_future Access.Service.drop_at
    Access.Service.landed_session Access.Service.write_session Access.Service.landed_key
    Access.Service.write_key Access.Service.stored_key Access.Service.users_create_api_key
    Access.Runs.kept Access.Runs.step Access.Runs.run Access.Runs.empty_store Events.Maps.lookup
    Events.Maps.put Events.Maps.delete
not_cleared_test = refl

verify_user-run_example :
    (r : Session) × (lookup 0 (run (Step.logs_in 0 session ∷ []) empty_store).sessions ≡ some r)
    × (r.tg_session ≡ 70)
    × (lookup 0 (run (Step.logs_in 0 session ∷ []) empty_store).cached_sessions ≡ none
        → r.revoked_at ≡ none)
unfolding Access.Rows.set_row Access.Rows.update_row Access.Tables.is_null Access.Tables.is_value
    Access.Tables.if_active Access.Tables.get_by_id Access.Tables.by_date
    Access.Tables.get_by_user_id Access.Tables.revoked Access.Tables.revoke Access.Tables.is_live
    Access.Tables.get_active_by_token_hash Access.Tables.touched Access.Tables.touch_last_used
    Access.Service.fetched_session Access.Service.session_by_id Access.Service.with_session
    Access.Service.verify_user Access.Service.claims_of Access.Service.new_entry
    Access.Service.looked_up Access.Service.cached_or Access.Service.verify_api_key
    Access.Service.create_session Access.Service.revoke_session Access.Service.clear_caches
    Access.Service.end_session Access.Service.in_future Access.Service.drop_at
    Access.Service.landed_session Access.Service.write_session Access.Service.landed_key
    Access.Service.write_key Access.Service.stored_key Access.Service.users_create_api_key
    Access.Runs.kept Access.Runs.step Access.Runs.run Access.Runs.empty_store Events.Maps.lookup
    Events.Maps.put Events.Maps.delete
verify_user-run_example =
    verify_user-run (Step.logs_in 0 session ∷ []) (Decoded.valid claims) claims refl

run-end_session_example :
    ((verify_user (Decoded.valid claims) (
        run (Step.logs_in 0 session ∷ []) (
          clear_caches 0 both
            (run (Step.logs_in 1 session ∷ []) (revoke_session 6 0 (run steps empty_store)))))).0
      ≢ Verified.accepted claims)
    × ((verify_api_key 7 99 (
          run (Step.logs_in 0 session ∷ []) (
            clear_caches 0 both
              (run (Step.logs_in 1 session ∷ []) (revoke_session 6 0 (run steps empty_store)))))).0
        ≢ Verified.accepted claims)
unfolding Access.Rows.set_row Access.Rows.update_row Access.Tables.is_null Access.Tables.is_value
    Access.Tables.if_active Access.Tables.get_by_id Access.Tables.by_date
    Access.Tables.get_by_user_id Access.Tables.revoked Access.Tables.revoke Access.Tables.is_live
    Access.Tables.get_active_by_token_hash Access.Tables.touched Access.Tables.touch_last_used
    Access.Service.fetched_session Access.Service.session_by_id Access.Service.with_session
    Access.Service.verify_user Access.Service.claims_of Access.Service.new_entry
    Access.Service.looked_up Access.Service.cached_or Access.Service.verify_api_key
    Access.Service.create_session Access.Service.revoke_session Access.Service.clear_caches
    Access.Service.end_session Access.Service.in_future Access.Service.drop_at
    Access.Service.landed_session Access.Service.write_session Access.Service.landed_key
    Access.Service.write_key Access.Service.stored_key Access.Service.users_create_api_key
    Access.Runs.kept Access.Runs.step Access.Runs.run Access.Runs.empty_store Events.Maps.lookup
    Events.Maps.put Events.Maps.delete
run-end_session_example =
    run-end_session steps (Step.logs_in 1 session ∷ []) (Step.logs_in 0 session ∷ []) 6 0 session
      refl tt tt (Decoded.valid claims) 7 99 claims refl

handle_session_hash_auth_refuses_example :
    handle_session_hash_auth 3 4 3 0 (run steps empty_store)
    ≡ (Verified.refused AuthError.session_invalid, run steps empty_store)
handle_session_hash_auth_refuses_example =
    handle_session_hash_auth_refuses 3 4 3 0 (run steps empty_store) (λ e. omega (arith, e))
