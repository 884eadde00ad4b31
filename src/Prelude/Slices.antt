-- ===== src/Prelude/Slices.antt =====
-- The piece of a list from one position up to another, as `xs[a:b]`.
use Prim.Native.Nat.{ℕ, ◌+◌, ◌-◌, ◌≤◌, min}
use mathlib.Core.Path.{◌≡◌, sym, ap, ap₂, ◌∙◌}
use mathlib.Core.List.{List, [], ◌++◌}
use native.Mathlib.Omega.{arith}
use native.Mathlib.Decide.{dec_lt}
use teldrive_easy.Prelude.Lists.{
  length, take, drop, take-add, take-take, drop-take, drop-drop, length-take, length-drop,
  take_zero,
}

module _ {ℓ} {A : Type ℓ} where
  abbrev pub slice : ℕ → ℕ → List A → List A
  slice a b xs = take (b - a) (drop a xs)

  -- Two pieces that meet.
  pub slice-append :
      (a b c : ℕ) (xs : List A) → a ≤ b → b ≤ c → slice a b xs ++ slice b c xs ≡ slice a c xs
  slice-append a b c xs h k =
      ap (λ ys. slice a b xs ++ take (c - b) ys)
        (ap (λ m. drop m xs) (omega arith) ∙ sym (drop-drop (b - a) a xs))
      ∙ sym (take-add (b - a) (c - b) (drop a xs))
      ∙ ap (λ m. take m (drop a xs)) (omega arith)

  -- A piece of a piece.
  pub slice-slice :
      (i j a b : ℕ) (xs : List A) → a + j ≤ b → slice i j (slice a b xs) ≡ slice (a + i) (a + j) xs
  slice-slice i j a b xs h =
      ap (take (j - i)) (drop-take i (b - a) (drop a xs))
      ∙ take-take (j - i) (b - a - i) (drop i (drop a xs))
      ∙ ap₂ take (omega arith) (drop-drop i a xs)

  pub slice_empty : (a b : ℕ) (xs : List A) → b ≤ a → slice a b xs ≡ []
  slice_empty a b xs h = ap (λ m. take m (drop a xs)) (omega arith) ∙ take_zero (drop a xs)

  pub length-slice : (a b : ℕ) (xs : List A) → a ≤ b → b ≤ length xs → length (slice a b xs) ≡ b - a
  length-slice a b xs h k = omega (arith, length-take (b - a) (drop a xs), length-drop a xs)

  -- A piece that begins behind its end is empty, so it may as well begin there.
  pub slice_from_min : (a c : ℕ) (xs : List A) → slice a c xs ≡ slice (min a c) c xs
  slice_from_min a c xs = elim (dec_lt c a) [
    | yes h ↦ slice_empty a c xs (omega arith) ∙ sym (slice_empty (min a c) c xs (omega arith))
    | no h ↦ ap (λ m. slice m c xs) (omega arith)
  ]
