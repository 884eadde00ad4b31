-- ===== src/Text.antt =====
-- Strings as lists of code points, with the functions of Go's `strings` that the program uses.
use mathlib.Core.Bool.{false≢true}
use teldrive_easy.Prelude.{
  ℕ, suc, ◌≡◌, refl, ap₂, Bool, true, false, ◌&&◌, ◌||◌, List, [], ◌∷◌, ◌++◌, Option, none, some,
  ◌==◌, ==_true, ==_false, if◌then◌else◌, length, ℕ_discrete,
}

abbrev pub Text : Type 0
Text = List ℕ

unfoldable pub text_equal : Text → Text → Bool
text_equal [] [] = true
text_equal [] (_ ∷ _) = false
text_equal (_ ∷ _) [] = false
text_equal (a ∷ as') (b ∷ bs) = (a == b) && text_equal as' bs

-- `strings.LastIndex` of one character; `none` is its -1.
unfoldable pub last_index : ℕ → Text → Option ℕ
last_index c [] = none
last_index c (x ∷ xs) = elim (last_index c xs) [
  | some i ↦ some (suc i)
  | none ↦ if x == c then some 0 else none
]

-- `strings.Index` of one character.
unfoldable pub index : ℕ → Text → Option ℕ
index c [] = none
index c (x ∷ xs) =
    let rest = index c xs in
    if x == c then some 0 else elim rest [ none ↦ none | some i ↦ some (suc i) ]

-- `strings.Split` at one character: never an empty list.

unfoldable pub split_head : ℕ → Text → Text
split_head c [] = []
split_head c (x ∷ xs) = let rest = split_head c xs in if x == c then [] else x ∷ rest

unfoldable pub split_tail : ℕ → Text → List Text
split_tail c [] = []
split_tail c (x ∷ xs) =
    let rest = split_tail c xs in if x == c then split_head c xs ∷ rest else rest

abbrev pub split : ℕ → Text → List Text
split c xs = split_head c xs ∷ split_tail c xs

-- `strings.HasPrefix(xs, ps)` and `strings.Contains(xs, ps)`, with the part first.
unfoldable pub has_prefix : Text → Text → Bool
has_prefix [] xs = true
has_prefix (p ∷ ps) [] = false
has_prefix (p ∷ ps) (x ∷ xs) = (p == x) && has_prefix ps xs

unfoldable pub contains_text : Text → Text → Bool
contains_text ps [] = has_prefix ps []
contains_text ps (x ∷ xs) = has_prefix ps (x ∷ xs) || contains_text ps xs

-- The tests on strings as equations.
pub text_equal_self : (xs : Text) → text_equal xs xs ≡ true
unfolding text_equal
text_equal_self [] = refl
text_equal_self (x ∷ xs) = rw (==_true x x refl) (text_equal_self xs)

pub text_equal_sound : (xs ys : Text) → text_equal xs ys ≡ true → xs ≡ ys
unfolding text_equal
text_equal_sound [] [] h = refl
text_equal_sound [] (y ∷ ys) h = cc
text_equal_sound (x ∷ xs) [] h = cc
text_equal_sound (x ∷ xs) (y ∷ ys) h = elim (ℕ_discrete x y) [
  | yes e ↦ ap₂ ◌∷◌ e (text_equal_sound xs ys (rw (==_true x y e) at h))
  | no e ↦ absurd (false≢true (rw (==_false x y e) at h))
]

-- A string without the character.
abbrev pub Lacks : ℕ → Text → Type 0
Lacks c xs = last_index c xs ≡ none

-- The last occurrence is the one before a tail that lacks the character.
pub last_index-append :
    (c : ℕ) (xs ys : Text) → Lacks c ys → last_index c (xs ++ c ∷ ys) ≡ some (length xs)
unfolding last_index
last_index-append c [] ys h = rw (h, ==_true c c refl) refl
last_index-append c (x ∷ xs) ys h = rw (last_index-append c xs ys h) refl
