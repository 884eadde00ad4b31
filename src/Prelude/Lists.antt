-- ===== src/Prelude/Lists.antt =====
-- Lists measured and indexed by native numbers, under the library's names.
use Prim.Native.Nat.{ℕ, zero, suc, ◌+◌, ◌-◌, ◌<◌, ◌≤◌, min}
use mathlib.Core.Path.{◌≡◌, refl, sym, ap, ap₂, ◌∙◌}
use mathlib.Core.Logic.{◌⊎◌, inl, inr}
use mathlib.Core.List.{List, [], ◌∷◌, ◌++◌, map}
use mathlib.Core.Option.{Option, none, some}
use native.Mathlib.Omega.{arith}
use native.Mathlib.Nat.{zero-add, suc-add, sub-zero, zero-sub, suc-sub-suc}

module _ {ℓ} {A : Type ℓ} where
  abbrev pub length : List A → ℕ
  length [] = 0
  length (x ∷ xs) = suc (length xs)

  abbrev pub get_elem? : List A → ℕ → Option A
  get_elem? [] i = none
  get_elem? (x ∷ xs) zero = some x
  get_elem? (x ∷ xs) (suc i) = get_elem? xs i

  pub length-append : (xs ys : List A) → length (xs ++ ys) ≡ length xs + length ys
  length-append [] ys = omega arith
  length-append (x ∷ xs) ys = omega (arith, length-append xs ys)

module _ {ℓ} {A : Type ℓ} where
  unfoldable pub take : ℕ → List A → List A
  take zero xs = []
  take (suc n) [] = []
  take (suc n) (x ∷ xs) = x ∷ take n xs

  unfoldable pub drop : ℕ → List A → List A
  drop zero xs = xs
  drop (suc n) [] = []
  drop (suc n) (x ∷ xs) = drop n xs

  abbrev pub replicate : ℕ → A → List A
  replicate zero a = []
  replicate (suc n) a = a ∷ replicate n a

  pub take-append-drop : (n : ℕ) (xs : List A) → take n xs ++ drop n xs ≡ xs
  unfolding take drop
  take-append-drop zero xs = refl
  take-append-drop (suc n) [] = refl
  take-append-drop (suc n) (x ∷ xs) = rw (take-append-drop n xs)

  pub length-take : (n : ℕ) (xs : List A) → length (take n xs) ≡ min n (length xs)
  unfolding take
  length-take zero xs = omega arith
  length-take (suc n) [] = omega arith
  length-take (suc n) (x ∷ xs) = omega (arith, length-take n xs)

  pub length-drop : (n : ℕ) (xs : List A) → length (drop n xs) ≡ length xs - n
  unfolding drop
  length-drop zero xs = omega arith
  length-drop (suc n) [] = omega arith
  length-drop (suc n) (x ∷ xs) = omega (arith, length-drop n xs)

  pub length-replicate : (n : ℕ) (a : A) → length (replicate n a) ≡ n
  length-replicate zero a = refl
  length-replicate (suc n) a = ap suc (length-replicate n a)

  pub length-map {κ} : {B : Type κ} (xs : List A) (f : A → B) → length (map f xs) ≡ length xs
  length-map [] f = refl
  length-map (x ∷ xs) f = ap suc (length-map xs f)

min_zero_left : (l : ℕ) → 0 ≡ min 0 l
min_zero_left l = omega arith

min_zero_right : (k : ℕ) → 0 ≡ min k 0
min_zero_right k = omega arith

suc-min : (k l : ℕ) → suc (min k l) ≡ min (suc k) (suc l)
suc-min k l = omega arith

split_at : (n m : ℕ) → m ≤ n → n ≡ m + (n - m)
split_at n m h = omega arith

sub_add : (e i d : ℕ) → e - (i + d) ≡ e - i - d
sub_add e i d = omega arith

-- `take` and `drop` stay shut, so that they do not run at large numerals; these are their laws.
module _ {ℓ} {A : Type ℓ} where
  pub take-nil : (n : ℕ) → take {A = A} n [] ≡ []
  unfolding take
  take-nil zero = refl
  take-nil (suc n) = refl

  pub drop-nil : (n : ℕ) → drop {A = A} n [] ≡ []
  unfolding drop
  drop-nil zero = refl
  drop-nil (suc n) = refl

  pub take_all : (n : ℕ) (xs : List A) → length xs ≤ n → take n xs ≡ xs
  unfolding take
  take_all zero [] h = refl
  take_all zero (x ∷ xs) h = absurd (omega arith)
  take_all (suc n) [] h = refl
  take_all (suc n) (x ∷ xs) h = ap (◌∷◌ x) (take_all n xs (omega arith))

  pub drop_all : (n : ℕ) (xs : List A) → length xs ≤ n → drop n xs ≡ []
  unfolding drop
  drop_all zero [] h = refl
  drop_all zero (x ∷ xs) h = absurd (omega arith)
  drop_all (suc n) [] h = refl
  drop_all (suc n) (x ∷ xs) h = drop_all n xs (omega arith)

  pub drop-drop : (m n : ℕ) (xs : List A) → drop m (drop n xs) ≡ drop (n + m) xs
  unfolding drop
  drop-drop m zero xs = rw (zero-add m)
  drop-drop m (suc n) [] = drop-nil m ∙ sym (drop-nil (suc n + m))
  drop-drop m (suc n) (x ∷ xs) = drop-drop m n xs ∙ sym (rw (suc-add n m))

  -- Taking in two steps.
  pub take-add : (m n : ℕ) (xs : List A) → take (m + n) xs ≡ take m xs ++ take n (drop m xs)
  unfolding take drop
  take-add zero n xs = rw (zero-add n)
  take-add (suc m) n [] = take-nil (suc m + n) ∙ sym (take-nil n)
  take-add (suc m) n (x ∷ xs) = rw (suc-add m n) (ap (◌∷◌ x) (take-add m n xs))

  pub take-append_le : (n : ℕ) (xs ys : List A) → n ≤ length xs → take n (xs ++ ys) ≡ take n xs
  unfolding take
  take-append_le zero xs ys h = refl
  take-append_le (suc n) [] ys h = absurd (omega arith)
  take-append_le (suc n) (x ∷ xs) ys h = ap (◌∷◌ x) (take-append_le n xs ys (omega arith))

  pub drop-append_le :
      (n : ℕ) (xs ys : List A) → n ≤ length xs → drop n (xs ++ ys) ≡ drop n xs ++ ys
  unfolding drop
  drop-append_le zero xs ys h = refl
  drop-append_le (suc n) [] ys h = absurd (omega arith)
  drop-append_le (suc n) (x ∷ xs) ys h = drop-append_le n xs ys (omega arith)

  pub take-append_add : (xs ys : List A) (n : ℕ) → take (length xs + n) (xs ++ ys) ≡ xs ++ take n ys
  unfolding take
  take-append_add [] ys n = rw (zero-add n)
  take-append_add (x ∷ xs) ys n = rw (suc-add (length xs) n) (ap (◌∷◌ x) (take-append_add xs ys n))

  pub drop-append_add : (xs ys : List A) (n : ℕ) → drop (length xs + n) (xs ++ ys) ≡ drop n ys
  unfolding drop
  drop-append_add [] ys n = rw (zero-add n)
  drop-append_add (x ∷ xs) ys n = rw (suc-add (length xs) n) (drop-append_add xs ys n)

  pub take_zero : (xs : List A) → take 0 xs ≡ []
  unfolding take
  take_zero xs = refl

  pub drop_zero : (xs : List A) → drop 0 xs ≡ xs
  unfolding drop
  drop_zero xs = refl

  pub length-eq-zero : (xs : List A) → length xs ≡ 0 → xs ≡ []
  length-eq-zero [] h = refl
  length-eq-zero (x ∷ xs) h = absurd (omega arith)

  pub List-cases : (xs : List A) → (xs ≡ []) ⊎ ((x : A) × (r : List A) × (xs ≡ x ∷ r))
  List-cases [] = inl refl
  List-cases (x ∷ r) = inr (x, r, refl)

  -- A piece of the front, counted by what it really held, and what is left.
  pub take_rest : (k : ℕ) (xs : List A) → take k xs ++ drop (length (take k xs)) xs ≡ xs
  unfolding take drop
  take_rest zero xs = refl
  take_rest (suc k) [] = refl
  take_rest (suc k) (x ∷ xs) = ap (◌∷◌ x) (take_rest k xs)

  pub drop-take : (d m : ℕ) (xs : List A) → drop d (take m xs) ≡ take (m - d) (drop d xs)
  unfolding take drop
  drop-take zero m xs = rw (sub-zero m)
  drop-take (suc d) zero xs = rw (zero-sub (suc d))
  drop-take (suc d) (suc m) [] = sym (take-nil (suc m - suc d))
  drop-take (suc d) (suc m) (x ∷ xs) = drop-take d m xs ∙ rw (suc-sub-suc m d)

  -- The slice from `i` up to `e`, `d` further on.
  pub slice_rest :
      (d i e : ℕ) (xs : List A)
      → take (e - (i + d)) (drop (i + d) xs) ≡ drop d (take (e - i) (drop i xs))
  slice_rest d i e xs =
      ap₂ take (sub_add e i d) (sym (drop-drop d i xs)) ∙ sym (drop-take d (e - i) (drop i xs))

  -- The same slice, read in two steps.
  pub slice_split :
      (k i e : ℕ) (xs : List A)
      → let w = take (e - i) (drop i xs) in
        let d = length (take k w) in take k w ++ take (e - (i + d)) (drop (i + d) xs) ≡ w
  slice_split k i e xs =
      let w = take (e - i) (drop i xs) in
      ap (◌++◌ (take k w)) (slice_rest (length (take k w)) i e xs) ∙ take_rest k w

  pub length-take_pos : (k : ℕ) (xs : List A) → 0 < k → 0 < length xs → 0 < length (take k xs)
  length-take_pos k xs h l = omega (arith, length-take k xs)

  pub take-take : (k l : ℕ) (xs : List A) → take k (take l xs) ≡ take (min k l) xs
  unfolding take
  take-take zero l xs = ap (λ m. take m xs) (min_zero_left l)
  take-take (suc k) zero xs = ap (λ m. take m xs) (min_zero_right (suc k))
  take-take (suc k) (suc l) [] = sym (take-nil (min (suc k) (suc l)))
  take-take (suc k) (suc l) (x ∷ xs) =
      ap (◌∷◌ x) (take-take k l xs) ∙ ap (λ m. take m (x ∷ xs)) (suc-min k l)

  pub take-append_ge :
      (n : ℕ) (xs ys : List A) → length xs ≤ n → take n (xs ++ ys) ≡ xs ++ take (n - length xs) ys
  take-append_ge n xs ys h =
      ap (λ m. take m (xs ++ ys)) (split_at n (length xs) h) ∙ take-append_add xs ys (n - length xs)
