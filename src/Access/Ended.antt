-- ===== src/Access/Ended.antt =====
-- A session that has ended.
use mathlib.Core.Bool.{false≢true}
use mathlib.Core.Option.{none-ne-some, some-injective}
use teldrive_easy.Prelude.{
  ℕ, ◌≡◌, ◌≢◌, refl, sym, ap, ◌∙◌, true, false, List, [], ◌∷◌, some, inl, inr, Option-cases,
}
use teldrive_easy.Events.Maps.{lookup, delete, lookup-delete_self}
use teldrive_easy.Access.Rows.{Unique, lookup-update_row_self}
use teldrive_easy.Access.Tables.{Session, get_by_id, is_null, revoke, revoked}
use teldrive_easy.Access.Service.{
  CachedKey, Claims, Decoded, Store, accepted, claims_of, clear_caches, revoke_session,
  verify_api_key, verify_user,
}
use teldrive_easy.Access.Coherent.{AllIn, AllIn-nil, AllOf, Entries, get_by_id-lookup}
use teldrive_easy.Access.Accepted.{verify_api_key-accepted, verify_user-accepted}
use teldrive_easy.Access.Changes.{Ended}
use teldrive_easy.Access.Checks.{MadeOf, Reads}
use teldrive_easy.Access.Runs.{Step, empty_store, run, step}
use teldrive_easy.Access.Moves.{step-Moves}
use teldrive_easy.Access.Backed.{run-Coherent}

not-active : (id : ℕ) (t : List (ℕ × Session)) (r : Session) → Ended id t → get_by_id id t ≢ some r
unfolding is_null
not-active id t r (s, l, dead) g =
    let (l', active) = get_by_id-lookup id t r g in
    let same : s ≡ r = some-injective s r (sym l ∙ l') in
    false≢true (sym dead ∙ ap (λ (x : Session). is_null x.revoked_at) same ∙ ap is_null active)

-- An entry that is not of the session.
abbrev pub OtherSession : ℕ → ℕ × Session → Type 0
OtherSession id p = p.0 ≢ id

abbrev pub OtherKey : ℕ → ℕ × CachedKey → Type 0
OtherKey id p = p.1.session_id ≢ id

-- The session has ended, and nothing of it is cached or about to be cached.
abbrev Clean : ℕ → Store → Type 0
Clean id st = Unique st.sessions × Ended id st.sessions × Entries (OtherSession id) (OtherKey id) st

not-made :
    (id : ℕ) (t : List (ℕ × Session)) (e : CachedKey) → Ended id t → MadeOf t e → e.session_id ≢ id
unfolding is_null
not-made id t e (q, l, dead) (s, l', active, _, _) same =
    let eq : q ≡ s = some-injective q s (sym l ∙ ap (λ (i : ℕ). lookup i t) (sym same) ∙ l') in
    false≢true (sym dead ∙ ap (λ (x : Session). is_null x.revoked_at) eq ∙ ap is_null active)

not-read :
    (id : ℕ) (t : List (ℕ × Session)) (k : ℕ) (s : Session)
    → Ended id t
    → get_by_id k t ≡ some s
    → k ≢ id
not-read id t k s h g same = not-active id t s h (ap (λ (i : ℕ). get_by_id i t) (sym same) ∙ g)

Ended-Reads :
    (id : ℕ) (st : Store) → Ended id st.sessions → Reads (OtherSession id) (OtherKey id) st
Ended-Reads id st h =
    (λ k s g. not-read id st.sessions k s h g, λ k e m. not-made id st.sessions e h m)

step-Clean : (x : Step) (id : ℕ) (st : Store) → Clean id st → Clean id (step x st)
step-Clean x id st (u, h, c) =
    let m = step-Moves x st u in
    (m.unique, m.ended id h, m.entries (OtherSession id) (OtherKey id) (Ended-Reads id st h) c)

run-Clean : (xs : List Step) (id : ℕ) (st : Store) → Clean id st → Clean id (run xs st)
unfolding run
run-Clean [] id st h = h
run-Clean (x ∷ xs) id st h = run-Clean xs id (step x st) (step-Clean x id st h)

-- Up to the clearing, the session only stays ended.
run-Ended :
    (xs : List Step) (id : ℕ) (st : Store)
    → Unique st.sessions
    → Ended id st.sessions
    → Unique (run xs st).sessions × Ended id (run xs st).sessions
unfolding run
run-Ended [] id st u h = (u, h)
run-Ended (x ∷ xs) id st u h =
    let m = step-Moves x st u in run-Ended xs id (step x st) m.unique (m.ended id h)

deleted-Other : (id : ℕ) (m : List (ℕ × Session)) → AllIn (OtherSession id) (delete id m)
deleted-Other id m k s l same =
    none-ne-some s
      (sym (lookup-delete_self id m) ∙ ap (λ (i : ℕ). lookup i (delete id m)) (sym same) ∙ l)

clear_caches-Clean :
    (id : ℕ) (st : Store)
    → Unique st.sessions
    → Ended id st.sessions
    → AllOf (OtherSession id) st.late_sessions
    → AllOf (OtherKey id) st.late_keys
    → Clean id (clear_caches id (record { session = true; keys = true }) st)
unfolding clear_caches
clear_caches-Clean id st u h a b = (
  u,
  h,
  record {
    sessions = deleted-Other id st.cached_sessions;
    keys = AllIn-nil (OtherKey id);
    late_sessions = a;
    late_keys = b;
  },
)

revoked_null : (now : ℕ) (s : Session) → is_null (revoked now s).revoked_at ≡ false
unfolding revoked is_null
revoked_null now s = elim (Option-cases s.revoked_at) [ inl e ↦ rw e refl | inr (t, e) ↦ rw e refl ]

revoke_session-Ended :
    (now id : ℕ) (st : Store) (s : Session)
    → Unique st.sessions
    → lookup id st.sessions ≡ some s
    → Unique (revoke_session now id st).sessions × Ended id (revoke_session now id st).sessions
unfolding revoke_session revoke step
revoke_session-Ended now id st s u l = (
  (step-Moves (Step.revokes now id) st u).unique,
  (revoked now s, lookup-update_row_self id (revoked now) st.sessions s l, revoked_null now s),
)

Clean-refuses :
    (id : ℕ) (st : Store)
    → Clean id st
    → (d : Decoded) (at h : ℕ) (c : Claims) → c.session_id ≡ id
    → ((verify_user d st).0 ≢ accepted c) × ((verify_api_key at h st).0 ≢ accepted c)
unfolding claims_of
Clean-refuses id st (u, ended, entries) d at h c same = (
  λ e.
      let (s, tg, from) = verify_user-accepted d st c e in
      elim from [
        | inl l ↦ entries.sessions c.session_id s l same
        | inr (n, g) ↦ not-read id st.sessions c.session_id s ended g same
      ],
  λ e.
      let (x, eq, from) = verify_api_key-accepted at h st c u e in
      let key_of : x.session_id ≡ id = ap (λ (y : Claims). y.session_id) eq ∙ same in
      elim from [
        | inl (l, live) ↦ entries.keys h x l key_of
        | inr m ↦ not-made id st.sessions x ended m key_of
      ],
)

-- A session that exists is revoked, and later, after any steps of other requests, the caches are
-- cleared for it. If both deletions of cache entries succeed, and at that time no check that has read
-- the session is still to write its cache entry, then after any further steps no token and no API key
-- is accepted with the id of the session.
pub run-end_session :
    (xs ys zs : List Step) (now id : ℕ) (s : Session)
    → lookup id (run xs empty_store).sessions ≡ some s
    → AllOf (OtherSession id) (run ys (revoke_session now id (run xs empty_store))).late_sessions
    → AllOf (OtherKey id) (run ys (revoke_session now id (run xs empty_store))).late_keys
    → (d : Decoded) (at h : ℕ) (c : Claims) → c.session_id ≡ id
    → ((verify_user d (
          run zs (
            clear_caches id
              (record { session = true; keys = true })
              (run ys (revoke_session now id (run xs empty_store)))))).0
        ≢ accepted c)
      × ((verify_api_key at h (
            run zs (
              clear_caches id
                (record { session = true; keys = true })
                (run ys (revoke_session now id (run xs empty_store)))))).0
          ≢ accepted c)
run-end_session xs ys zs now id s l a b d at h c same =
    let old : Store = run xs empty_store in
    let (u, e) = revoke_session-Ended now id old s (run-Coherent xs).0 l in
    let (u', e') = run-Ended ys id (revoke_session now id old) u e in
    let st : Store = run ys (revoke_session now id old) in
    Clean-refuses id (run zs (clear_caches id (record { session = true; keys = true }) st))
      (run-Clean zs id (clear_caches id (record { session = true; keys = true }) st)
        (clear_caches-Clean id st u' e' a b))
      d at h c same
