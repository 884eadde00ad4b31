-- ===== src/Events/Maps.antt =====
-- Go's maps with number keys, as association lists with one entry for each key that is set.
use mathlib.Core.Option.{some-injective}
use teldrive_easy.Prelude.{
  ℕ, ◌≡◌, ◌≢◌, refl, sym, ap, ◌∙◌, Bool, true, false, List, [], ◌∷◌, Option, none, some, ◌==◌,
  ==_true, ==_false, if◌then◌else◌, ℕ_discrete, Bool-cases, inl, inr,
}

module _ {ℓ} {A : Type ℓ} where
  unfoldable pub lookup : ℕ → List (ℕ × A) → Option A
  lookup k [] = none
  lookup k ((j, a) ∷ m) = let rest = lookup k m in if j == k then some a else rest

  -- `delete(m, k)`.
  unfoldable pub delete : ℕ → List (ℕ × A) → List (ℕ × A)
  delete k [] = []
  delete k ((j, a) ∷ m) = let rest = delete k m in if j == k then rest else (j, a) ∷ rest

  -- `m[k] = a`.
  unfoldable pub put : ℕ → A → List (ℕ × A) → List (ℕ × A)
  put k a m = (k, a) ∷ delete k m

  -- The entries that pass a test, as a loop with `delete` leaves them.
  unfoldable pub keep_if : (A → Bool) → List (ℕ × A) → List (ℕ × A)
  keep_if test [] = []
  keep_if test ((j, a) ∷ m) = let rest = keep_if test m in if test a then (j, a) ∷ rest else rest

  pub lookup-put : (k : ℕ) (a : A) (m : List (ℕ × A)) → lookup k (put k a m) ≡ some a
  unfolding lookup put
  lookup-put k a m = rw (==_true k k refl) refl

  pub lookup-delete_ne : (j k : ℕ) (m : List (ℕ × A)) → j ≢ k → lookup k (delete j m) ≡ lookup k m
  unfolding lookup delete
  lookup-delete_ne j k [] h = refl
  lookup-delete_ne j k ((i, a) ∷ m) h = elim (ℕ_discrete i j) [
    | yes e ↦ rw (==_true i j e, ==_false i k (λ e'. h (sym e ∙ e'))) (lookup-delete_ne j k m h)
    | no n ↦
        rw (==_false i j n, lookup)
          (ap (λ r. if i == k then some a else r) (lookup-delete_ne j k m h))
  ]

  pub lookup-delete_self : (k : ℕ) (m : List (ℕ × A)) → lookup k (delete k m) ≡ none
  unfolding lookup delete
  lookup-delete_self k [] = refl
  lookup-delete_self k ((i, a) ∷ m) = elim (ℕ_discrete i k) [
    | yes e ↦ rw (==_true i k e) (lookup-delete_self k m)
    | no n ↦ rw (==_false i k n, lookup, ==_false i k n) (lookup-delete_self k m)
  ]

  pub lookup-put_ne :
      (j k : ℕ) (a : A) (m : List (ℕ × A)) → j ≢ k → lookup k (put j a m) ≡ lookup k m
  unfolding lookup put
  lookup-put_ne j k a m h = rw (==_false j k h) (lookup-delete_ne j k m h)

  pub lookup_here : (i k : ℕ) (b : A) (m : List (ℕ × A)) → i ≡ k → lookup k ((i, b) ∷ m) ≡ some b
  unfolding lookup
  lookup_here i k b m e = rw (==_true i k e) refl

  pub lookup_there :
      (i k : ℕ) (b : A) (m : List (ℕ × A)) → i ≢ k → lookup k ((i, b) ∷ m) ≡ lookup k m
  unfolding lookup
  lookup_there i k b m n = rw (==_false i k n) refl

  keep_if_kept :
      (test : A → Bool) (i : ℕ) (b : A) (m : List (ℕ × A))
      → test b ≡ true
      → keep_if test ((i, b) ∷ m) ≡ (i, b) ∷ keep_if test m
  unfolding keep_if
  keep_if_kept test i b m t = rw t refl

  keep_if_gone :
      (test : A → Bool) (i : ℕ) (b : A) (m : List (ℕ × A))
      → test b ≡ false
      → keep_if test ((i, b) ∷ m) ≡ keep_if test m
  unfolding keep_if
  keep_if_gone test i b m t = rw t refl

  -- An entry that passes the test stays.
  pub lookup-keep_if :
      (test : A → Bool) (k : ℕ) (a : A) (m : List (ℕ × A))
      → test a ≡ true
      → lookup k m ≡ some a
      → lookup k (keep_if test m) ≡ some a
  unfolding lookup keep_if
  lookup-keep_if test k a [] t h = h
  lookup-keep_if test k a ((i, b) ∷ m) t h = elim (ℕ_discrete i k) [
    | yes e ↦
        let same : b ≡ a = some-injective b a (sym (lookup_here i k b m e) ∙ h) in
        ap (lookup k) (keep_if_kept test i b m (ap test same ∙ t))
        ∙ lookup_here i k b (keep_if test m) e
        ∙ ap some same
    | no n ↦
        let rest = lookup-keep_if test k a m t (sym (lookup_there i k b m n) ∙ h) in
        elim (Bool-cases (test b)) [
          | inl y ↦
              ap (lookup k) (keep_if_kept test i b m y)
              ∙ lookup_there i k b (keep_if test m) n
              ∙ rest
          | inr y ↦ ap (lookup k) (keep_if_gone test i b m y) ∙ rest
        ]
  ]
