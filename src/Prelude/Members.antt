-- ===== src/Prelude/Members.antt =====
-- Sets of numbers, as lists without repetitions.
use mathlib.Core.Bool.{false≢true}
use teldrive_easy.Prelude.{
  ℕ, ◌≡◌, ◌≢◌, refl, sym, ap, ◌∙◌, Bool, true, false, ◌||◌, List, [], ◌∷◌, ◌==◌, ==_true, ==_false,
  if◌then◌else◌, ℕ_discrete, subst,
}

unfoldable pub has : ℕ → List ℕ → Bool
has k [] = false
has k (j ∷ js) = (j == k) || has k js

unfoldable pub remove : ℕ → List ℕ → List ℕ
remove k [] = []
remove k (j ∷ js) = let rest = remove k js in if j == k then rest else j ∷ rest

-- No number stands in the list twice.
abbrev pub Distinct : List ℕ → Type 0
Distinct [] = Unit
Distinct (j ∷ js) = (has j js ≡ false) × Distinct js

pub has_here : (j k : ℕ) (js : List ℕ) → j ≡ k → has k (j ∷ js) ≡ true
unfolding has
has_here j k js e = rw (==_true j k e) refl

pub has_there : (j k : ℕ) (js : List ℕ) → j ≢ k → has k (j ∷ js) ≡ has k js
unfolding has
has_there j k js n = rw (==_false j k n) refl

-- What the tail has, the list has.
pub has_tail : (j k : ℕ) (js : List ℕ) → has k js ≡ true → has k (j ∷ js) ≡ true
has_tail j k js h = elim (ℕ_discrete j k) [
  | yes e ↦ has_here j k js e
  | no n ↦ has_there j k js n ∙ h
]

remove_gone : (k j : ℕ) (js : List ℕ) → j ≡ k → remove k (j ∷ js) ≡ remove k js
unfolding remove
remove_gone k j js e = rw (==_true j k e) refl

remove_kept : (k j : ℕ) (js : List ℕ) → j ≢ k → remove k (j ∷ js) ≡ j ∷ remove k js
unfolding remove
remove_kept k j js n = rw (==_false j k n) refl

pub has-remove_ne : (k i : ℕ) (js : List ℕ) → i ≢ k → has i (remove k js) ≡ has i js
unfolding remove
has-remove_ne k i [] n = refl
has-remove_ne k i (j ∷ js) n = elim (ℕ_discrete j k) [
  | yes e ↦
      ap (has i) (remove_gone k j js e)
      ∙ has-remove_ne k i js n
      ∙ sym (has_there j i js (λ e'. n (sym e' ∙ e)))
  | no m ↦ elim (ℕ_discrete j i) [
    | yes e ↦
        ap (has i) (remove_kept k j js m) ∙ has_here j i (remove k js) e ∙ sym (has_here j i js e)
    | no l ↦
        ap (has i) (remove_kept k j js m)
        ∙ has_there j i (remove k js) l
        ∙ has-remove_ne k i js n
        ∙ sym (has_there j i js l)
  ]
]

pub has-remove_self : (k : ℕ) (js : List ℕ) → has k (remove k js) ≡ false
unfolding has remove
has-remove_self k [] = refl
has-remove_self k (j ∷ js) = elim (ℕ_discrete j k) [
  | yes e ↦ ap (has k) (remove_gone k j js e) ∙ has-remove_self k js
  | no n ↦ ap (has k) (remove_kept k j js n) ∙ has_there j k (remove k js) n ∙ has-remove_self k js
]

pub remove-Distinct : (k : ℕ) (js : List ℕ) → Distinct js → Distinct (remove k js)
unfolding remove
remove-Distinct k [] h = tt
remove-Distinct k (j ∷ js) h = elim (ℕ_discrete j k) [
  | yes e ↦ subst Distinct (sym (remove_gone k j js e)) (remove-Distinct k js h.1)
  | no n ↦
      subst Distinct (sym (remove_kept k j js n))
        (has-remove_ne k j js n ∙ h.0, remove-Distinct k js h.1)
]

-- What is not in the list is neither its head nor in its tail.
pub has_apart : (j k : ℕ) (js : List ℕ) → has k (j ∷ js) ≡ false → (j ≢ k) × (has k js ≡ false)
has_apart j k js h = elim (ℕ_discrete j k) [
  | yes e ↦ absurd (false≢true (sym h ∙ has_here j k js e))
  | no n ↦ (n, sym (has_there j k js n) ∙ h)
]
