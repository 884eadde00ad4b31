-- ===== src/Access/Coherent.antt =====
-- What is cached of sessions and API keys agrees with the tables.
use mathlib.Core.Bool.{false≢true}
use mathlib.Core.Option.{none-ne-some, some-injective}
use teldrive_easy.Prelude.{
  zero, suc, get_elem?, sym, ℕ_discrete, ℕ, ◌≡◌, inl, inr, refl, ap, ◌∙◌, Bool, true, false, ◌&&◌,
  List, [], ◌∷◌, Option, none, some, Bool-cases, ◌==◌, ==_iff, subst, leb,
}
use teldrive_easy.Events.Maps.{
  lookup, put, delete, lookup-put, lookup-put_ne, lookup-delete_self, lookup-delete_ne,
}
use teldrive_easy.Access.Rows.{Stands, Unique}
use teldrive_easy.Access.Tables.{Session, by_date, get_by_id, get_by_user_id, if_active, is_null}
use teldrive_easy.Access.Service.{CachedKey, Store, drop_at}

-- A row, revoked or not, with this user and this session of Telegram.
abbrev pub Backs : List (ℕ × Session) → (id user tg : ℕ) → Type 0
Backs t id user tg =
    (r : Session) × (lookup id t ≡ some r) × (r.user_id ≡ user) × (r.tg_session ≡ tg)

abbrev pub BacksSession : List (ℕ × Session) → ℕ × Session → Type 0
BacksSession t (id, s) = Backs t id s.user_id s.tg_session

abbrev pub BacksKey : List (ℕ × Session) → ℕ × CachedKey → Type 0
BacksKey t (h, e) = Backs t e.session_id e.user_id e.tg_session

-- What holds for the entries of a cache, and of the writes that are late.
abbrev pub AllOf : {A : Type 0} → (A → Type 0) → List A → Type 0
AllOf P [] = Unit
AllOf P (x ∷ xs) = P x × AllOf P xs

abbrev pub AllIn : {A : Type 0} → (ℕ × A → Type 0) → List (ℕ × A) → Type 0
AllIn {A} P m = (k : ℕ) (a : A) → lookup k m ≡ some a → P (k, a)

pub AllOf-get :
    {A : Type 0} (P : A → Type 0) (xs : List A) (n : ℕ) (x : A)
    → AllOf P xs
    → get_elem? xs n ≡ some x
    → P x
AllOf-get P [] n x h e = absurd (none-ne-some x e)
AllOf-get P (y ∷ ys) zero x h e = subst P (some-injective y x e) h.0
AllOf-get P (y ∷ ys) (suc n) x h e = AllOf-get P ys n x h.1 e

pub AllOf-drop_at :
    {A : Type 0} (P : A → Type 0) (xs : List A) (n : ℕ) → AllOf P xs → AllOf P (drop_at n xs)
unfolding drop_at
AllOf-drop_at P [] n h = tt
AllOf-drop_at P (y ∷ ys) zero h = h.1
AllOf-drop_at P (y ∷ ys) (suc n) h = (h.0, AllOf-drop_at P ys n h.1)

pub AllOf-map :
    {A : Type 0} (P Q : A → Type 0)
    → ((x : A) → P x → Q x)
    → (xs : List A) → AllOf P xs
    → AllOf Q xs
AllOf-map P Q f [] h = tt
AllOf-map P Q f (x ∷ xs) h = (f x h.0, AllOf-map P Q f xs h.1)

pub AllIn-put :
    {A : Type 0} (P : ℕ × A → Type 0) (k : ℕ) (a : A) (m : List (ℕ × A))
    → P (k, a)
    → AllIn P m
    → AllIn P (put k a m)
AllIn-put {A = A} P k a m p h j b l = elim (ℕ_discrete k j) [
  | yes e ↦
      let same : a ≡ b =
        some-injective a b (sym (lookup-put k a m) ∙ ap (λ (i : ℕ). lookup i (put k a m)) e ∙ l) in
      subst (λ (x : A). P (j, x)) same (subst (λ (i : ℕ). P (i, a)) e p)
  | no n ↦ h j b (sym (lookup-put_ne k j a m n) ∙ l)
]

pub AllIn-delete :
    {A : Type 0} (P : ℕ × A → Type 0) (k : ℕ) (m : List (ℕ × A)) → AllIn P m → AllIn P (delete k m)
AllIn-delete P k m h j b l = elim (ℕ_discrete k j) [
  | yes e ↦
      absurd (
        none-ne-some b (sym (lookup-delete_self k m) ∙ ap (λ (i : ℕ). lookup i (delete k m)) e ∙ l))
  | no n ↦ h j b (sym (lookup-delete_ne k j m n) ∙ l)
]

pub AllIn-nil : {A : Type 0} (P : ℕ × A → Type 0) → AllIn P []
unfolding lookup
AllIn-nil P k a l = absurd (none-ne-some a l)

-- What holds for all that is cached, or is still to be cached.
pub record Entries (sessions_hold : ℕ × Session → Type 0) (keys_hold : ℕ × CachedKey → Type 0)
    (st : Store) : Type 0 where
  pub sessions : AllIn sessions_hold st.cached_sessions
  pub keys : AllIn keys_hold st.cached_keys
  pub late_sessions : AllOf sessions_hold st.late_sessions
  pub late_keys : AllOf keys_hold st.late_keys

abbrev pub Coherent : Store → Type 0
Coherent st = Unique st.sessions × Entries (BacksSession st.sessions) (BacksKey st.sessions) st

pub is_null-none : (o : Option ℕ) → is_null o ≡ true → o ≡ none
unfolding is_null
is_null-none none h = refl
is_null-none (some t) h = absurd (false≢true h)

-- The rows that the queries give.
pub if_active-some :
    (o : Option Session) (r : Session) → if_active o ≡ some r → (o ≡ some r) × (r.revoked_at ≡ none)
unfolding if_active
if_active-some none r e = absurd (none-ne-some r e)
if_active-some (some s) r e = elim (Bool-cases (is_null s.revoked_at)) [
  | inl h ↦
      let same : s ≡ r = some-injective s r (rw h at e) in
      (
        ap some same,
        subst (λ (x : Session). x.revoked_at ≡ none) same (is_null-none s.revoked_at h),
      )
  | inr h ↦ absurd (none-ne-some r (rw h at e))
]

pub get_by_id-lookup :
    (id : ℕ) (t : List (ℕ × Session)) (r : Session)
    → get_by_id id t ≡ some r
    → (lookup id t ≡ some r) × (r.revoked_at ≡ none)
unfolding get_by_id
get_by_id-lookup id t r e = if_active-some (lookup id t) r e

pub &&-true : (a b : Bool) → (a && b) ≡ true → (a ≡ true) × (b ≡ true)
&&-true true b h = (refl, h)
&&-true false b h = absurd (false≢true h)

-- Rows that stand in the table, are active and belong to the user.
abbrev pub Owned : (user : ℕ) → List (ℕ × Session) → List (ℕ × Session) → Type 0
Owned user t [] = Unit
Owned user t ((id, s) ∷ rows) =
    (Stands id s t × (s.user_id ≡ user) × (s.revoked_at ≡ none)) × Owned user t rows

by_date-Owned :
    (user : ℕ) (t : List (ℕ × Session)) (id : ℕ) (s : Session) (rows : List (ℕ × Session))
    → Stands id s t
    → s.user_id ≡ user
    → s.revoked_at ≡ none
    → Owned user t rows
    → Owned user t (by_date (id, s) rows)
unfolding by_date
by_date-Owned user t id s [] st u n h = ((st, u, n), tt)
by_date-Owned user t id s ((j, q) ∷ rows) st u n h =
    elim (Bool-cases (leb q.created_at s.created_at)) [
      | inl e ↦ rw e ((st, u, n), h)
      | inr e ↦ rw e (h.0, by_date-Owned user t id s rows st u n h.1)
    ]

Owned-more :
    (user k : ℕ) (b : Session) (t rows : List (ℕ × Session))
    → Owned user t rows
    → Owned user ((k, b) ∷ t) rows
Owned-more user k b t [] h = tt
Owned-more user k b t ((id, s) ∷ rows) h =
    ((inr h.0.0, h.0.1, h.0.2), Owned-more user k b t rows h.1)

pub get_by_user_id-Owned :
    (user : ℕ) (t : List (ℕ × Session)) → Owned user t (get_by_user_id user t)
unfolding get_by_user_id
get_by_user_id-Owned user [] = tt
get_by_user_id-Owned user ((id, s) ∷ t) =
    let rest = Owned-more user id s t (get_by_user_id user t) (get_by_user_id-Owned user t) in
    elim (Bool-cases ((s.user_id == user) && is_null s.revoked_at)) [
      | inl e ↦
          let (same, active) = &&-true (s.user_id == user) (is_null s.revoked_at) e in
          rw e (
            by_date-Owned user ((id, s) ∷ t) id s (get_by_user_id user t) (inl (refl, refl))
              ((==_iff s.user_id user).0 same) (is_null-none s.revoked_at active) rest)
      | inr e ↦ rw e rest
    ]
