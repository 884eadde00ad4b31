-- ===== src/Prelude/Arith.antt =====
-- Quotients and remainders of the native numbers by an unknown.
use native.Mathlib.Nat.{
  add-mul-mod_self_right, mod-eq_of_lt, mod-lt, div-add-mod, pow-suc, pow-zero,
}
use Prim.Native.Nat.{ℕ, zero, suc, ◌+◌, ◌*◌, ◌/◌, ◌%◌, ◌^◌, ◌<◌}
use mathlib.Core.Path.{◌≡◌, ap, ◌∙◌}
use native.Mathlib.Omega.{arith}

-- The remainder is the one part below the divisor.
pub mod_unique : (x s q m : ℕ) → x ≡ s + q * m → s < m → x % m ≡ s
mod_unique x s q m e h = ap (λ t. t % m) e ∙ add-mul-mod_self_right s q m ∙ mod-eq_of_lt h

pub pow_pos : (b k : ℕ) → 0 < b → 0 < b ^ k
pow_pos b zero h = omega (arith, pow-zero b)
pow_pos b (suc k) h = rw pow-suc (grind (arith, pow_pos b k h))

-- One more digit of base 256.
pub mod_256_suc : (x k : ℕ) → x % 256 ^ suc k ≡ x % 256 + 256 * (x / 256 % 256 ^ k)
mod_256_suc x k = rw pow-suc (
    mod_unique x _ (x / 256 / 256 ^ k) (256 ^ k * 256)
      (omega (arith, ap (λ (t : ℕ). t * 256) (div-add-mod (x / 256) (256 ^ k))))
      (omega (arith, mod-lt (x / 256) (pow_pos 256 k (omega arith)))))
