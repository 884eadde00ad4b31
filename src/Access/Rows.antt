-- ===== src/Access/Rows.antt =====
-- Tables with one row for each id, as association lists.
use mathlib.Core.Option.{none-ne-some}
use teldrive_easy.Prelude.{
  ℕ, ◌≡◌, ◌≢◌, ◌⊎◌, inl, inr, refl, sym, ap, ◌∙◌, List, [], ◌∷◌, Option, none, some, ℕ_discrete,
  Option-cases, ==_true, ==_false, subst,
}
use teldrive_easy.Events.Maps.{
  lookup, put, delete, lookup_here, lookup_there, lookup-delete_self, lookup-delete_ne, lookup-put,
  lookup-put_ne,
}

module _ {A : Type 0} where
  -- A row changes, where it is there.
  unfoldable pub set_row : ℕ → List (ℕ × A) → (A → A) → Option A → List (ℕ × A)
  set_row id t f none = t
  set_row id t f (some a) = put id (f a) t

  unfoldable pub update_row : ℕ → (A → A) → List (ℕ × A) → List (ℕ × A)
  update_row id f t = set_row id t f (lookup id t)

  -- No id stands in the table twice.
  abbrev pub Unique : List (ℕ × A) → Type 0
  Unique [] = Unit
  Unique ((k, a) ∷ t) = (lookup k t ≡ none) × Unique t

  abbrev pub Stands : ℕ → A → List (ℕ × A) → Type 0
  Stands id a [] = ⊥
  Stands id a ((k, b) ∷ t) = ((k ≡ id) × (b ≡ a)) ⊎ Stands id a t

  delete_here : (i k : ℕ) (b : A) (t : List (ℕ × A)) → i ≡ k → delete k ((i, b) ∷ t) ≡ delete k t
  unfolding delete
  delete_here i k b t e = rw (==_true i k e) refl

  delete_there :
      (i k : ℕ) (b : A) (t : List (ℕ × A)) → i ≢ k → delete k ((i, b) ∷ t) ≡ (i, b) ∷ delete k t
  unfolding delete
  delete_there i k b t n = rw (==_false i k n) refl

  lookup-delete-none :
      (j k : ℕ) (t : List (ℕ × A)) → lookup k t ≡ none → lookup k (delete j t) ≡ none
  lookup-delete-none j k t h = elim (ℕ_discrete j k) [
    | yes e ↦ ap (λ (i : ℕ). lookup k (delete i t)) e ∙ lookup-delete_self k t
    | no n ↦ lookup-delete_ne j k t n ∙ h
  ]

  delete-Unique : (k : ℕ) (t : List (ℕ × A)) → Unique t → Unique (delete k t)
  unfolding delete
  delete-Unique k [] u = tt
  delete-Unique k ((i, b) ∷ t) u = elim (ℕ_discrete i k) [
    | yes e ↦ subst Unique (sym (delete_here i k b t e)) (delete-Unique k t u.1)
    | no n ↦
        subst Unique (sym (delete_there i k b t n))
          (lookup-delete-none k i t u.0, delete-Unique k t u.1)
  ]

  pub put-Unique : (k : ℕ) (a : A) (t : List (ℕ × A)) → Unique t → Unique (put k a t)
  unfolding put
  put-Unique k a t u = (lookup-delete_self k t, delete-Unique k t u)

  pub lookup-Stands :
      (id : ℕ) (a : A) (t : List (ℕ × A)) → Unique t → Stands id a t → lookup id t ≡ some a
  lookup-Stands id a [] u h = absurd h
  lookup-Stands id a ((k, b) ∷ t) u (inl (e, f)) = lookup_here k id b t e ∙ ap some f
  lookup-Stands id a ((k, b) ∷ t) u (inr h) =
      let found = lookup-Stands id a t u.1 h in
      lookup_there k id b t (λ e. none-ne-some a (sym u.0 ∙ ap (λ (i : ℕ). lookup i t) e ∙ found))
      ∙ found

  -- A row that changes, seen at every id.
  pub lookup-update_row_self :
      (id : ℕ) (f : A → A) (t : List (ℕ × A)) (a : A)
      → lookup id t ≡ some a
      → lookup id (update_row id f t) ≡ some (f a)
  unfolding update_row set_row
  lookup-update_row_self id f t a l = rw l (lookup-put id (f a) t)

  pub lookup-update_row_ne :
      (id k : ℕ) (f : A → A) (t : List (ℕ × A)) → id ≢ k → lookup k (update_row id f t) ≡ lookup k t
  unfolding update_row set_row
  lookup-update_row_ne id k f t n = elim (Option-cases (lookup id t)) [
    | inl l ↦ rw l refl
    | inr (a, l) ↦ rw l (lookup-put_ne id k (f a) t n)
  ]

  pub update_row-Unique :
      (id : ℕ) (f : A → A) (t : List (ℕ × A)) → Unique t → Unique (update_row id f t)
  unfolding update_row set_row
  update_row-Unique id f t u = elim (Option-cases (lookup id t)) [
    | inl l ↦ rw l u
    | inr (a, l) ↦ rw l (put-Unique id (f a) t u)
  ]
