-- ===== src/Crypt/Box.antt =====
-- `golang.org/x/crypto/nacl/secretbox`, which the cipher calls, and the blocks that it makes.
pub mod Blocks
use teldrive_easy.Prelude.{
  ℕ, zero, suc, ◌+◌, ◌≡◌, List, [], ◌∷◌, ◌++◌, Option, some, length, take, drop,
}
use teldrive_easy.Crypt.Nonce.{Nonce, increment}
use teldrive_easy.Crypt.Size.{block_header_size, block_data_size}

-- `Seal` and `Open`, by key and nonce: a box is longer than its message by `Overhead`, and opens
-- to it.
pub record SecretBox : Type 0 where
  pub seal : List ℕ → Nonce → List ℕ → List ℕ
  pub open_box : List ℕ → Nonce → List ℕ → Option (List ℕ)
  pub length-seal :
      (key : List ℕ) (n : Nonce) (m : List ℕ) → length (seal key n m) ≡ block_header_size + length m
  pub open_box-seal :
      (key : List ℕ) (n : Nonce) (m : List ℕ) → open_box key n (seal key n m) ≡ some m

-- The encrypted blocks of a plaintext: each full block, and what is left, sealed under the next
-- nonce. Fuel of the plaintext's length is enough.
module _ (box : SecretBox) (key : List ℕ) where
  open box use {seal}

  unfoldable pub seal_blocks : ℕ → Nonce → List ℕ → List ℕ
  seal_blocks zero n plain = []
  seal_blocks (suc fuel) n [] = []
  seal_blocks (suc fuel) n (b ∷ bs) =
      seal key n (take block_data_size (b ∷ bs))
      ++ seal_blocks fuel (increment n) (drop block_data_size (b ∷ bs))

  -- The ciphertext behind the file header.
  unfoldable pub body : Nonce → List ℕ → List ℕ
  unfolding seal_blocks
  body n plain = seal_blocks (length plain) n plain

-- `fileMagicBytes`, "TELDRIVE\x00\x00".
abbrev pub file_magic_bytes : List ℕ
file_magic_bytes = b'T' ∷ b'E' ∷ b'L' ∷ b'D' ∷ b'R' ∷ b'I' ∷ b'V' ∷ b'E' ∷ 0 ∷ 0 ∷ []

-- An encrypted file.
abbrev pub encrypted : SecretBox → List ℕ → Nonce → List ℕ → List ℕ
encrypted box key n plain = file_magic_bytes ++ (n ++ body box key n plain)
