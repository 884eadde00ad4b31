-- ===== src/Access/Backed.antt =====
-- Every request that is accepted has a session behind it.
use mathlib.Core.Option.{none-ne-some}
use teldrive_easy.Prelude.{◌≡◌, refl, sym, ◌∙◌, List, [], ◌∷◌, none, some, inl, inr}
use teldrive_easy.Events.Maps.{lookup}
use teldrive_easy.Access.Tables.{Session}
use teldrive_easy.Access.Service.{Claims, Decoded, Store, accepted, verify_user}
use teldrive_easy.Access.Coherent.{AllIn-nil, BacksKey, BacksSession, Coherent, get_by_id-lookup}
use teldrive_easy.Access.Checks.{Reads}
use teldrive_easy.Access.Changes.{Entries-grown}
use teldrive_easy.Access.Accepted.{verify_user-accepted}
use teldrive_easy.Access.Runs.{Step, empty_store, run, step}
use teldrive_easy.Access.Moves.{step-Moves}

Reads-rows : (st : Store) → Reads (BacksSession st.sessions) (BacksKey st.sessions) st
Reads-rows st = (
  λ id s g. let (l, active) = get_by_id-lookup id st.sessions s g in (s, l, refl, refl),
  λ h e (s, l, active, user, tg). (s, l, user, tg),
)

step-Coherent : (x : Step) (st : Store) → Coherent st → Coherent (step x st)
step-Coherent x st (u, c) =
    let m = step-Moves x st u in
    (
      m.unique,
      Entries-grown st.sessions (step x st).sessions (step x st) m.grows
          (m.entries (BacksSession st.sessions) (BacksKey st.sessions) (Reads-rows st) c),
    )

run-from : (xs : List Step) (st : Store) → Coherent st → Coherent (run xs st)
unfolding run
run-from [] st c = c
run-from (x ∷ xs) st c = run-from xs (step x st) (step-Coherent x st c)

pub run-Coherent : (xs : List Step) → Coherent (run xs empty_store)
unfolding empty_store
run-Coherent xs = run-from xs empty_store (
  tt,
  record {
    sessions = AllIn-nil (BacksSession []);
    keys = AllIn-nil (BacksKey []);
    late_sessions = tt;
    late_keys = tt;
  },
)

-- After any run of requests, logins, refreshes, logouts and changes of keys, in whatever order their
-- steps come and whatever writes and deletions of the caches fail, a token is accepted only with the
-- id and the Telegram session of a row of the table of sessions; and that row is not revoked, unless
-- the session is still cached.
pub verify_user-run :
    (xs : List Step) (d : Decoded) (c : Claims)
    → (verify_user d (run xs empty_store)).0 ≡ accepted c
    → (r : Session) × (lookup c.session_id (run xs empty_store).sessions ≡ some r)
      × (r.tg_session ≡ c.tg_session)
      × (lookup c.session_id (run xs empty_store).cached_sessions ≡ none → r.revoked_at ≡ none)
verify_user-run xs d c e =
    let st = run xs empty_store in
    let (s, tg, from) = verify_user-accepted d st c e in
    elim from [
      | inl l ↦
          let (r, l', user, tg') = (run-Coherent xs).1.sessions c.session_id s l in
          (r, l', tg' ∙ tg, λ n. absurd (none-ne-some s (sym n ∙ l)))
      | inr (n, g) ↦
          let (l, active) = get_by_id-lookup c.session_id st.sessions s g in
          (s, l, tg, λ n'. active)
    ]
