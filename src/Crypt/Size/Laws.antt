-- ===== src/Crypt/Size/Laws.antt =====
-- Sizes before and after encryption, and the blocks that hold a range.
use teldrive_easy.Prelude.{ℕ, ◌+◌, ◌*◌, ◌<◌, ◌≤◌, ◌≡◌, ◌↔◌, arith}
use teldrive_easy.Prelude.Int.{pos}
use teldrive_easy.Crypt.Errors.{ok}
use teldrive_easy.Crypt.Size.{
  encrypted_size, decrypted_size, calculate_underlying, blocks_to_read, block_data_size, block_size,
  file_header_size,
}

-- The size of an encrypted file gives the size of its plaintext back.
pub decrypted_size-encrypted_size : (size : ℕ) → decrypted_size (encrypted_size size) ≡ ok size
unfolding decrypted_size encrypted_size
decrypted_size-encrypted_size size = ground arith

-- A size is accepted exactly if it is the size of an encrypted file, and then the answer is the
-- size of the plaintext.
pub decrypted_size_iff :
    (total size : ℕ) → (decrypted_size total ≡ ok size) ↔ (encrypted_size size ≡ total)
unfolding decrypted_size encrypted_size
decrypted_size_iff total size = (λ h. ground arith, λ h. ground arith)

-- For an offset and a positive limit: the block to start with and the bytes to discard there make
-- up the offset; the range that is asked for below begins at that block and has a whole number of
-- blocks, which hold the range to its end, and one block less would not.
pub blocks_to_read_bounds :
    (offset limit : ℕ)
    → 0 < limit
    → let u = calculate_underlying offset (pos limit) in
      let count = blocks_to_read u.discard limit in
      (u.blocks * block_data_size + u.discard ≡ offset)
      × (u.limit ≡ pos (count * block_size))
      × (u.offset ≡ file_header_size + u.blocks * block_size)
      × (offset + limit ≤ (u.blocks + count) * block_data_size)
      × ((u.blocks + count) * block_data_size < offset + limit + block_data_size)
unfolding calculate_underlying blocks_to_read
blocks_to_read_bounds offset limit h =
    (omega arith, ground arith, omega arith, ground arith, ground arith)

-- The same, counted from the first block.
pub blocks_to_read_cover :
    (discard limit : ℕ)
    → discard < block_data_size
    → (discard + limit ≤ blocks_to_read discard limit * block_data_size)
      × (1 ≤ blocks_to_read discard limit)
unfolding blocks_to_read
blocks_to_read_cover discard limit h = (ground arith, ground arith)
