-- ===== src/Crypt/Nonce.antt =====
-- The nonce of internal/crypt/cipher.go: bytes, the least significant first.
pub mod Value
use teldrive_easy.Prelude.{
  ℕ, zero, suc, ◌+◌, ◌*◌, ◌/◌, ◌%◌, ◌^◌, ◌<◌, ◌≡◌, refl, List, [], ◌∷◌, arith, length, leb,
  if◌then◌else◌,
}

-- A fixed array of bytes, `[fileNonceSize]byte`.
abbrev pub Nonce : Type 0
Nonce = List ℕ

abbrev pub file_nonce_size : ℕ
file_nonce_size = 24

-- The loop of `carry` from the index that the list starts at: one byte is raised, and the loop
-- goes on only if it wrapped round.
carry_from : Nonce → Nonce
carry_from [] = []
carry_from (digit ∷ rest) =
    let new_digit = (digit + 1) % 256 in
    if leb digit new_digit then new_digit ∷ rest else new_digit ∷ carry_from rest

-- `carry(i)`: the bytes below `i` stay.
carry : ℕ → Nonce → Nonce
unfolding carry_from
carry zero n = carry_from n
carry (suc i) [] = []
carry (suc i) (digit ∷ rest) = digit ∷ carry i rest

unfoldable pub increment : Nonce → Nonce
unfolding carry
increment n = carry 0 n

-- The loop of `add` over the `rounds` bytes that are left, with the running `carry`; then
-- `n.carry(8)` if a carry is left, on the bytes behind those.
add_loop : (rounds : ℕ) → (x c : ℕ) → Nonce → Nonce
unfolding carry
add_loop zero x c n = if leb 1 c then carry 0 n else n
add_loop (suc k) x c [] = []
add_loop (suc k) x c (digit ∷ rest) =
    let total = (c + (digit + x % 256)) % 65536 in
    total % 256 ∷ add_loop k (x / 256) (total / 256) rest

unfoldable pub add : ℕ → Nonce → Nonce
unfolding add_loop
add x n = add_loop 8 x 0 n

-- The number that the bytes stand for.
abbrev pub value : Nonce → ℕ
value [] = 0
value (d ∷ rest) = d + 256 * value rest

abbrev pub IsBytes : List ℕ → Type 0
IsBytes [] = Unit {0}
IsBytes (d ∷ rest) = (d < 256) × IsBytes rest

increment_test : value (increment (255 ∷ 255 ∷ 1 ∷ [])) ≡ 131072
unfolding increment
increment_test = refl

add_test :
    add 258 (255 ∷ 255 ∷ 1 ∷ 0 ∷ 0 ∷ 0 ∷ 0 ∷ 0 ∷ 7 ∷ []) ≡ 1 ∷ 1 ∷ 2 ∷ 0 ∷ 0 ∷ 0 ∷ 0 ∷ 0 ∷ 7 ∷ []
unfolding add
add_test = refl
