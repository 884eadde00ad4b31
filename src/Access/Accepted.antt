-- ===== src/Access/Accepted.antt =====
-- Where a check takes what it accepts from.

use teldrive_easy.Prelude.{
  ℕ, ◌≡◌, ◌⊎◌, inl, inr, refl, sym, ap, ◌∙◌, List, [], ◌∷◌, Option, none, some, Option-cases, subst,
  true, Bool-cases, ltb,
}
use teldrive_easy.Events.Maps.{lookup}
use teldrive_easy.Access.Rows.{Unique, lookup-Stands}
use teldrive_easy.Access.Tables.{
  ApiKey, Session, get_active_by_token_hash, get_by_id, get_by_user_id,
}
use teldrive_easy.Access.Service.{
  CachedKey, Claims, Decoded, Store, accepted, cached_or, claims_of, fetched_session, looked_up,
  new_entry, session_by_id, verify_api_key, verify_user, with_session,
}
use teldrive_easy.Access.Coherent.{Owned, get_by_user_id-Owned}
use teldrive_easy.Access.Checks.{MadeOf}
use teldrive_easy.Access.Unchanged.{session_by_id_cached, session_by_id_fetched}

-- The session is cached, or it is not and an active row has it.
abbrev pub SessionFrom : Store → ℕ → Session → Type 0
SessionFrom st id s =
    (lookup id st.cached_sessions ≡ some s)
    ⊎ ((lookup id st.cached_sessions ≡ none) × (get_by_id id st.sessions ≡ some s))

fetched_session_first : (id : ℕ) (st : Store) (o : Option Session) → (fetched_session id st o).0 ≡ o
unfolding fetched_session
fetched_session_first id st none = refl
fetched_session_first id st (some s) = refl

session_by_id-From :
    (id : ℕ) (st : Store) (s : Session) → (session_by_id id st).0 ≡ some s → SessionFrom st id s
session_by_id-From id st s h = elim (Option-cases (lookup id st.cached_sessions)) [
  | inl l ↦ inr (
    l,
    sym (fetched_session_first id st (get_by_id id st.sessions))
        ∙ sym (ap (λ (r : Option Session × Store). r.0) (session_by_id_fetched id st l))
        ∙ h,
  )
  | inr (x, l) ↦
      inl (l ∙ sym (ap (λ (r : Option Session × Store). r.0) (session_by_id_cached id st x l)) ∙ h)
]

with_session-accepted :
    (c d : Claims) (o : Option Session)
    → with_session c o ≡ accepted d
    → (s : Session) × (o ≡ some s) × (c.session_id ≡ d.session_id) × (s.tg_session ≡ d.tg_session)
unfolding with_session
with_session-accepted c d none e = absurd (cc)
with_session-accepted c d (some s) e =
    let same : record c { tg_session = s.tg_session } ≡ d = cc in
    (s, refl, ap (λ (x : Claims). x.session_id) same, ap (λ (x : Claims). x.tg_session) same)

pub verify_user-accepted :
    (d : Decoded) (st : Store) (c : Claims)
    → (verify_user d st).0 ≡ accepted c
    → (s : Session) × (s.tg_session ≡ c.tg_session) × SessionFrom st c.session_id s
unfolding verify_user
verify_user-accepted Decoded.expired st c e = absurd (cc)
verify_user-accepted Decoded.malformed st c e = absurd (cc)
verify_user-accepted (Decoded.valid cl) st c e =
    let (s, got, same, tg) = with_session-accepted cl c (session_by_id cl.session_id st).0 e in
    (s, tg, subst (λ (i : ℕ). SessionFrom st i s) same (session_by_id-From cl.session_id st s got))

-- The entry is cached, or a row has just made it, as the cache has none or it is over.
abbrev pub KeyFrom : ℕ → ℕ → Store → CachedKey → Type 0
KeyFrom now h st e =
    ((lookup h st.cached_keys ≡ some e) × (ltb now e.expires ≡ true)) ⊎ MadeOf st.sessions e

accepted_same : (e : CachedKey) (c : Claims) → accepted (claims_of e) ≡ accepted c → claims_of e ≡ c
accepted_same e c h = cc

new_entry-accepted :
    (now h id : ℕ) (k : ApiKey) (st : Store) (rows : List (ℕ × Session)) (c : Claims)
    → Unique st.sessions
    → Owned k.user_id st.sessions rows
    → (new_entry now h id k st rows).0 ≡ accepted c
    → (e : CachedKey) × (claims_of e ≡ c) × MadeOf st.sessions e
unfolding new_entry
new_entry-accepted now h id k st [] c u o e = absurd (cc)
new_entry-accepted now h id k st ((sid, s) ∷ rows) c u o e =
    (_, accepted_same _ c e, (s, lookup-Stands sid s st.sessions u o.0.0, o.0.2, o.0.1, refl))

looked_up-accepted :
    (now h : ℕ) (st : Store) (o : Option (ℕ × ApiKey)) (c : Claims)
    → Unique st.sessions
    → (looked_up now h st o).0 ≡ accepted c
    → (e : CachedKey) × (claims_of e ≡ c) × MadeOf st.sessions e
unfolding looked_up
looked_up-accepted now h st none c u e = absurd (cc)
looked_up-accepted now h st (some (id, k)) c u e =
    new_entry-accepted now h id k st (get_by_user_id k.user_id st.sessions) c u
      (get_by_user_id-Owned k.user_id st.sessions) e

cached_or-accepted :
    (now h : ℕ) (st : Store) (o : Option CachedKey) (c : Claims)
    → o ≡ lookup h st.cached_keys
    → Unique st.sessions
    → (cached_or now h st o).0 ≡ accepted c
    → (e : CachedKey) × (claims_of e ≡ c) × KeyFrom now h st e
unfolding cached_or
cached_or-accepted now h st none c l u e =
    let (x, same, made) =
      looked_up-accepted now h st (get_active_by_token_hash now h st.api_keys) c u e in
    (x, same, inr made)
cached_or-accepted now h st (some x) c l u e = elim (Bool-cases (ltb now x.expires)) [
  | inl t ↦ (x, accepted_same x c (rw t at e), inl (sym l, t))
  | inr t ↦
      let (y, same, made) =
        looked_up-accepted now h st (get_active_by_token_hash now h st.api_keys) c u (rw t at e) in
      (y, same, inr made)
]

pub verify_api_key-accepted :
    (now h : ℕ) (st : Store) (c : Claims)
    → Unique st.sessions
    → (verify_api_key now h st).0 ≡ accepted c
    → (e : CachedKey) × (claims_of e ≡ c) × KeyFrom now h st e
unfolding verify_api_key
verify_api_key-accepted now h st c u e =
    cached_or-accepted now h st (lookup h st.cached_keys) c refl u e
