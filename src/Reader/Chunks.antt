-- ===== src/Reader/Chunks.antt =====
-- `CalculateChunkSize` of internal/tgc/helpers.go, which sizes the chunks of a stream.
use native.Mathlib.Nat.{pow-suc}
use teldrive_easy.Prelude.Arith.{pow_pos}
use teldrive_easy.Prelude.{
  ℕ, zero, suc, ◌+◌, ◌-◌, ◌*◌, ◌/◌, ◌^◌, ◌<◌, ◌≤◌, ◌≡◌, refl, ◌⊎◌, inl, inr, ◌&&◌, ltb,
  if◌then◌else◌, arith, dec_lt, ap, ◌∙◌, ltb-true,
}

-- The loop, on fuel; `span` is `end - start`.
halve : (fuel : ℕ) → (chunk_size span : ℕ) → ℕ
halve zero chunk_size span = chunk_size
halve (suc fuel) chunk_size span =
    let smaller = halve fuel (chunk_size / 2) span in
    if ltb 1024 chunk_size && ltb span chunk_size then smaller else chunk_size

-- Ten halvings lead from 1 MiB to 1 KiB.
unfoldable pub calculate_chunk_size : ℕ → ℕ → ℕ
unfolding halve
calculate_chunk_size start end = halve 10 1048576 (end - start)

halve-more :
    (fuel c span : ℕ) → 1024 < c → span < c → halve (suc fuel) c span ≡ halve fuel (c / 2) span
unfolding halve
halve-more fuel c span h k = rw (ltb-true h, ltb-true k)

halve-done : (fuel c span : ℕ) → c ≤ span → halve (suc fuel) c span ≡ c
unfolding halve
halve-done fuel c span h = ground arith

-- Halving a power of two from 1 KiB up ends by the loop's test.
halve-power :
    (k span : ℕ)
    → (j : ℕ) × (j ≤ k)
      × (halve k (1024 * 2 ^ k) span ≡ 1024 * 2 ^ j)
      × ((j ≡ 0) ⊎ (1024 * 2 ^ j ≤ span))
      × ((j ≡ k) ⊎ (span < 2 * (1024 * 2 ^ j)))
unfolding halve
halve-power zero span = (0, omega arith, refl, inl refl, inl refl)
halve-power (suc k) span = elim (dec_lt span (1024 * 2 ^ suc k)) [
  | yes more ↦
      let (j, le, e, low, high) = halve-power k span in
      (
        j,
        omega arith,
        halve-more k (1024 * 2 ^ suc k) span (omega (arith, pow-suc 2 k, pow_pos 2 k (omega arith)))
              more
            ∙ ap (λ c. halve k c span) (omega (arith, pow-suc 2 k))
            ∙ e,
        low,
        elim high [ inl same ↦ inr (rw same (omega (arith, pow-suc 2 k))) | inr lt ↦ inr lt ],
      )
  | no done ↦ (
    suc k,
    omega arith,
    halve-done k (1024 * 2 ^ suc k) span (omega arith),
    inr (omega arith),
    inl refl,
  )
]

pub calculate_chunk_size_power :
    (start end : ℕ)
    → (j : ℕ) × (j ≤ 10)
      × (calculate_chunk_size start end ≡ 1024 * 2 ^ j)
      × ((j ≡ 0) ⊎ (calculate_chunk_size start end < end - start + 1))
      × ((j ≡ 10) ⊎ (end - start + 1 ≤ 2 * calculate_chunk_size start end))
unfolding calculate_chunk_size
calculate_chunk_size_power start end =
    let (j, le, e, low, high) = halve-power 10 (end - start) in
    (
      j,
      le,
      e,
      elim low [ inl z ↦ inl z | inr h ↦ inr (rw e (omega arith)) ],
      elim high [ inl z ↦ inl z | inr h ↦ inr (rw e (omega arith)) ],
    )

pub calculate_chunk_size_pos : (start end : ℕ) → 0 < calculate_chunk_size start end
calculate_chunk_size_pos start end =
    let (j, le, e, low, high) = calculate_chunk_size_power start end in
    rw e (omega (arith, pow_pos 2 j (omega arith)))
