-- ===== src/Crypt/Nonce/Value.antt =====
-- Counting with nonces: what `increment` and `add` do to the number that a nonce stands for.
use native.Mathlib.Nat.{pow-suc, mod-add-mod}
use teldrive_easy.Prelude.{
  ℕ, zero, suc, ◌+◌, ◌*◌, ◌/◌, ◌%◌, ◌^◌, ◌<◌, ◌≤◌, ◌≡◌, refl, sym, ap, ap₂, ◌∙◌, [], ◌∷◌, arith,
  length, dec_lt,
}
use teldrive_easy.Prelude.Arith.{mod_unique, mod_256_suc}
use teldrive_easy.Crypt.Nonce.{Nonce, carry_from, carry, add_loop, increment, add, value, IsBytes}

value_bound : (n : Nonce) → IsBytes n → value n < 256 ^ length n
value_bound [] h = omega arith
value_bound (d ∷ rest) h = omega (arith, value_bound rest h.1, pow-suc 256 (length rest), h.0)

carry_from-length : (n : Nonce) → length (carry_from n) ≡ length n
unfolding carry_from
carry_from-length [] = refl
carry_from-length (d ∷ rest) = ground (arith, carry_from-length rest)

carry_from-IsBytes : (n : Nonce) → IsBytes n → IsBytes (carry_from n)
unfolding carry_from
carry_from-IsBytes [] h = tt
carry_from-IsBytes (d ∷ rest) h = ground (arith, carry_from-IsBytes rest h.1)

carry_from-low : (d : ℕ) (rest : Nonce) → d < 255 → carry_from (d ∷ rest) ≡ (d + 1) ∷ rest
unfolding carry_from
carry_from-low d rest h = ground arith

carry_from-high : (d : ℕ) (rest : Nonce) → d ≡ 255 → carry_from (d ∷ rest) ≡ 0 ∷ carry_from rest
unfolding carry_from
carry_from-high d rest h = ground arith

-- What raising by one does: `over` tells whether the number wrapped round.
carry_from-value :
    (n : Nonce)
    → IsBytes n
    → (over : ℕ) × (value (carry_from n) + over * 256 ^ length n ≡ value n + 1)
unfolding carry_from
carry_from-value [] h = (1, omega arith)
carry_from-value (d ∷ rest) h = elim (dec_lt d 255) [
  | yes low ↦ (0, rw (carry_from-low d rest low) (omega arith))
  | no high ↦
      let (over, e) = carry_from-value rest h.1 in
      (
        over,
        rw (carry_from-high d rest (omega arith), pow-suc)
            (omega (arith, ap (λ (t : ℕ). t * 256) e)),
      )
]

-- The loop of `add` over `k` bytes adds the last `k` bytes of `x`, and the carry that it is given.
add_loop-value :
    (k x c : ℕ) (n : Nonce)
    → IsBytes n
    → c < 2
    → k ≤ length n
    → (over : ℕ) × (value (add_loop k x c n) + over * 256 ^ length n ≡ value n + x % 256 ^ k + c)
unfolding add_loop carry
add_loop-value zero x c n h hc hk = elim (dec_lt 0 c) [
  | yes one ↦ let (over, e) = carry_from-value n h in (over, ground (arith, e))
  | no none ↦ (0, ground arith)
]
add_loop-value (suc k) x c [] h hc hk = absurd (omega arith)
add_loop-value (suc k) x c (d ∷ rest) h hc hk =
    let (over, e) =
      add_loop-value k (x / 256) ((c + (d + x % 256)) % 65536 / 256) rest h.1 (omega arith)
        (omega arith) in
    (
      over,
      rw (pow-suc 256 (length rest), mod_256_suc x k) (omega (arith, ap (λ (t : ℕ). t * 256) e)),
    )

add_loop-length : (k x c : ℕ) (n : Nonce) → length (add_loop k x c n) ≡ length n
unfolding add_loop carry
add_loop-length zero x c n = elim (dec_lt 0 c) [
  | yes one ↦ ground (arith, carry_from-length n)
  | no none ↦ ground arith
]
add_loop-length (suc k) x c [] = refl
add_loop-length (suc k) x c (d ∷ rest) = ap suc (add_loop-length k _ _ rest)

add_loop-IsBytes : (k x c : ℕ) (n : Nonce) → IsBytes n → IsBytes (add_loop k x c n)
unfolding add_loop carry
add_loop-IsBytes zero x c n h = elim (dec_lt 0 c) [
  | yes one ↦ ground (arith, carry_from-IsBytes n h)
  | no none ↦ ground arith
]
add_loop-IsBytes (suc k) x c [] h = h
add_loop-IsBytes (suc k) x c (d ∷ rest) h = (omega arith, add_loop-IsBytes k _ _ rest h.1)

-- Both operations keep the size and the bytes.
pub increment-IsBytes :
    (n : Nonce) → IsBytes n → IsBytes (increment n) × (length (increment n) ≡ length n)
unfolding increment carry
increment-IsBytes n h = (carry_from-IsBytes n h, carry_from-length n)

pub add-IsBytes :
    (x : ℕ) (n : Nonce) → IsBytes n → IsBytes (add x n) × (length (add x n) ≡ length n)
unfolding add
add-IsBytes x n h = (add_loop-IsBytes 8 x 0 n h, add_loop-length 8 x 0 n)

-- `increment` counts up by one, modulo 2 to the number of bits of the nonce.
pub increment-value : (n : Nonce) → IsBytes n → value (increment n) ≡ (value n + 1) % 256 ^ length n
unfolding increment carry
increment-value n h =
    let (over, e) = carry_from-value n h in
    sym (
      mod_unique _ _ over (256 ^ length n) (sym e)
        (rw (← carry_from-length n) (value_bound (carry_from n) (carry_from-IsBytes n h))))

-- `add x` counts a nonce of 8 bytes or more up by the low 64 bits of `x`, modulo 2 to the number of
-- bits of the nonce.
pub add-value :
    (x : ℕ) (n : Nonce)
    → IsBytes n
    → 8 ≤ length n
    → value (add x n) ≡ (value n + x % 2 ^ 64) % 256 ^ length n
unfolding add
add-value x n h k =
    let (over, e) = add_loop-value 8 x 0 n h (omega arith) k in
    sym (
      mod_unique _ _ over (256 ^ length n) (omega (arith, e)) (
        rw (← add_loop-length 8 x 0 n)
          (value_bound (add_loop 8 x 0 n) (add_loop-IsBytes 8 x 0 n h))))

-- A nonce is determined by its number.
value_injective :
    (n m : Nonce) → IsBytes n → IsBytes m → length n ≡ length m → value n ≡ value m → n ≡ m
value_injective [] [] h k l e = refl
value_injective [] (d ∷ m) h k l e = absurd (omega arith)
value_injective (c ∷ n) [] h k l e = absurd (omega arith)
value_injective (c ∷ n) (d ∷ m) h k l e =
    ap₂ ◌∷◌ (omega arith) (value_injective n m h.1 k.1 (omega arith) (omega arith))

-- The nonce of block `k`: `k` increments.
abbrev pub increments : ℕ → Nonce → Nonce
increments zero n = n
increments (suc k) n = increment (increments k n)

pub increments-IsBytes :
    (k : ℕ) (n : Nonce)
    → IsBytes n
    → IsBytes (increments k n) × (length (increments k n) ≡ length n)
increments-IsBytes zero n h = (h, refl)
increments-IsBytes (suc k) n h =
    let (b, l) = increments-IsBytes k n h in
    let (b', l') = increment-IsBytes (increments k n) b in (b', l' ∙ l)

pub increments-increment :
    (k : ℕ) (n : Nonce) → increments k (increment n) ≡ increment (increments k n)
increments-increment zero n = refl
increments-increment (suc k) n = ap increment (increments-increment k n)

increments-value :
    (k : ℕ) (n : Nonce) → IsBytes n → value (increments k n) ≡ (value n + k) % 256 ^ length n
increments-value zero n h = sym (mod_unique _ _ 0 (256 ^ length n) (omega arith) (value_bound n h))
increments-value (suc k) n h =
    let (b, l) = increments-IsBytes k n h in
    increment-value (increments k n) b
    ∙ rw (l, increments-value k n h, mod-add-mod) (ap (λ (t : ℕ). t % 256 ^ length n) (omega arith))

-- Seeking to a block by `add` gives the nonce that reading up to it by increments reaches, for a
-- nonce of 8 bytes or more and a block number below 2^64.
pub add-increments :
    (k : ℕ) (n : Nonce) → IsBytes n → 8 ≤ length n → k < 2 ^ 64 → add k n ≡ increments k n
add-increments k n h l small =
    let (b, e) = add-IsBytes k n h in
    let (b', e') = increments-IsBytes k n h in
    value_injective (add k n) (increments k n) b b' (e ∙ sym e') (
      add-value k n h l
      ∙ rw (mod_unique k k 0 (2 ^ 64) (omega arith) small) (sym (increments-value k n h)))
