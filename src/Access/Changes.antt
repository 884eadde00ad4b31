-- ===== src/Access/Changes.antt =====
-- What logins, refreshes and logouts do to the table of sessions: no row is lost, and none changes
-- its user or its session of Telegram.
use mathlib.Core.Option.{none-ne-some}
use teldrive_easy.Prelude.{
  ℕ, ◌≡◌, refl, sym, ap, ◌∙◌, List, none, some, ℕ_discrete, inl, inr, Bool-cases, false,
}
use teldrive_easy.Events.Maps.{lookup, put, lookup-put_ne}
use teldrive_easy.Access.Rows.{lookup-update_row_ne, lookup-update_row_self, update_row}
use teldrive_easy.Access.Tables.{
  Session, is_null, revoke, revoked, update_refresh_token_hash, with_refresh_hash,
}
use teldrive_easy.Access.Service.{CachedKey, Store}
use teldrive_easy.Access.Coherent.{AllOf-map, Backs, BacksKey, BacksSession, Entries}

abbrev pub Grows : List (ℕ × Session) → List (ℕ × Session) → Type 0
Grows t u = (id : ℕ) (r : Session) → lookup id t ≡ some r → Backs u id r.user_id r.tg_session

pub Grows-same : (t : List (ℕ × Session)) → Grows t t
Grows-same t id r l = (r, l, refl, refl)

pub Grows-put :
    (k : ℕ) (s : Session) (t : List (ℕ × Session)) → lookup k t ≡ none → Grows t (put k s t)
Grows-put k s t free id r l = (
  r,
  lookup-put_ne k id s t (λ e. none-ne-some r (sym free ∙ ap (λ (i : ℕ). lookup i t) e ∙ l)) ∙ l,
  refl,
  refl,
)

-- A change of rows that keeps the user and the session of Telegram.
pub Grows-update_row :
    (k : ℕ) (f : Session → Session) (t : List (ℕ × Session))
    → ((s : Session) → ((f s).user_id ≡ s.user_id) × ((f s).tg_session ≡ s.tg_session))
    → Grows t (update_row k f t)
Grows-update_row k f t keeps id r l = elim (ℕ_discrete k id) [
  | yes e ↦ (
    f r,
    ap (λ (i : ℕ). lookup id (update_row i f t)) e ∙ lookup-update_row_self id f t r l,
    (keeps r).0,
    (keeps r).1,
  )
  | no n ↦ (r, lookup-update_row_ne k id f t n ∙ l, refl, refl)
]

revoked-keeps :
    (now : ℕ) (s : Session)
    → ((revoked now s).user_id ≡ s.user_id) × ((revoked now s).tg_session ≡ s.tg_session)
unfolding revoked
revoked-keeps now s = elim (Bool-cases (is_null s.revoked_at)) [
  | inl e ↦ rw e (refl, refl)
  | inr e ↦ rw e (refl, refl)
]

with_refresh_hash-keeps :
    (h : ℕ) (s : Session)
    → ((with_refresh_hash h s).user_id ≡ s.user_id)
      × ((with_refresh_hash h s).tg_session ≡ s.tg_session)
unfolding with_refresh_hash
with_refresh_hash-keeps h s = elim (Bool-cases (is_null s.revoked_at)) [
  | inl e ↦ rw e (refl, refl)
  | inr e ↦ rw e (refl, refl)
]

pub Grows-revoke : (now id : ℕ) (t : List (ℕ × Session)) → Grows t (revoke now id t)
unfolding revoke
Grows-revoke now id t = Grows-update_row id (revoked now) t (revoked-keeps now)

pub Grows-refresh : (id h : ℕ) (t : List (ℕ × Session)) → Grows t (update_refresh_token_hash id h t)
unfolding update_refresh_token_hash
Grows-refresh id h t = Grows-update_row id (with_refresh_hash h) t (with_refresh_hash-keeps h)

Backs-grown :
    (t u : List (ℕ × Session)) (id user tg : ℕ)
    → Grows t u
    → Backs t id user tg
    → Backs u id user tg
Backs-grown t u id user tg g (r, l, same, tgs) =
    let (q, l', same', tgs') = g id r l in (q, l', same' ∙ same, tgs' ∙ tgs)

-- Entries that had a row still have it.
pub Entries-grown :
    (t u : List (ℕ × Session)) (st : Store)
    → Grows t u
    → Entries (BacksSession t) (BacksKey t) st
    → Entries (BacksSession u) (BacksKey u) st
Entries-grown t u st g c = record {
  sessions = λ k s l. Backs-grown t u k s.user_id s.tg_session g (c.sessions k s l);
  keys = λ h e l. Backs-grown t u e.session_id e.user_id e.tg_session g (c.keys h e l);
  late_sessions =
      AllOf-map (BacksSession t) (BacksSession u)
        (λ (p : ℕ × Session). Backs-grown t u p.0 p.1.user_id p.1.tg_session g) st.late_sessions
        c.late_sessions;
  late_keys =
      AllOf-map (BacksKey t) (BacksKey u)
        (λ (p : ℕ × CachedKey). Backs-grown t u p.1.session_id p.1.user_id p.1.tg_session g)
        st.late_keys c.late_keys;
}

-- The session has a row, and the row is revoked.
abbrev pub Ended : ℕ → List (ℕ × Session) → Type 0
Ended id t = (s : Session) × (lookup id t ≡ some s) × (is_null s.revoked_at ≡ false)

-- A change of rows that leaves a revoked one alone.
pub update_row-Ended :
    (id k : ℕ) (f : Session → Session) (t : List (ℕ × Session))
    → ((s : Session) → is_null s.revoked_at ≡ false → f s ≡ s)
    → Ended k t
    → Ended k (update_row id f t)
update_row-Ended id k f t same (s, l, dead) = elim (ℕ_discrete id k) [
  | yes e ↦ (
    s,
    ap (λ (i : ℕ). lookup k (update_row i f t)) e
        ∙ lookup-update_row_self k f t s l
        ∙ ap some (same s dead),
    dead,
  )
  | no n ↦ (s, lookup-update_row_ne id k f t n ∙ l, dead)
]

pub revoked_dead : (now : ℕ) (s : Session) → is_null s.revoked_at ≡ false → revoked now s ≡ s
unfolding revoked
revoked_dead now s h = rw h refl

pub with_refresh_hash_dead :
    (h : ℕ) (s : Session) → is_null s.revoked_at ≡ false → with_refresh_hash h s ≡ s
unfolding with_refresh_hash
with_refresh_hash_dead n s h = rw h refl

pub put-Ended :
    (id k : ℕ) (s : Session) (t : List (ℕ × Session))
    → lookup id t ≡ none
    → Ended k t
    → Ended k (put id s t)
put-Ended id k s t free (r, l, dead) = (
  r,
  lookup-put_ne id k s t (λ e. none-ne-some r (sym free ∙ ap (λ (i : ℕ). lookup i t) e ∙ l)) ∙ l,
  dead,
)
