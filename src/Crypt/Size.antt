-- ===== src/Crypt/Size.antt =====
-- The layout of an encrypted file in internal/crypt/cipher.go: sizes and offsets. Sizes are
-- non-negative and far from the bounds of int64.
pub mod Laws
use teldrive_easy.Prelude.{
  ℕ, ◌+◌, ◌-◌, ◌*◌, ◌/◌, ◌%◌, ltb, leb, ◌==◌, if◌then◌else◌, arith, ◌≡◌, refl,
}
use teldrive_easy.Prelude.Int.{ℤ, pos, negsuc}
use teldrive_easy.Crypt.Errors.{Result, ok, err, file_too_short, bad_header}

abbrev pub file_magic_size : ℕ
file_magic_size = 10

abbrev pub file_header_size : ℕ
file_header_size = 34

-- `secretbox.Overhead`.
abbrev pub block_header_size : ℕ
block_header_size = 16

abbrev pub block_data_size : ℕ
block_data_size = 65536

abbrev pub block_size : ℕ
block_size = 65552

-- `EncryptedSize`.
unfoldable pub encrypted_size : ℕ → ℕ
encrypted_size size =
    let blocks = size / block_data_size in
    let residue = size % block_data_size in
    let whole = file_header_size + blocks * (block_header_size + block_data_size) in
    if residue == 0 then whole else whole + (block_header_size + residue)

-- `DecryptedSize`. The subtractions come after the tests that make them exact.
unfoldable pub decrypted_size : ℕ → Result ℕ
decrypted_size total =
    let size = total - file_header_size in
    let blocks = size / block_size in
    let residue = size % block_size in
    if ltb total file_header_size
    then err file_too_short
    else if residue == 0
    then ok (blocks * block_data_size)
    else if leb residue block_header_size
    then err bad_header
    else ok (blocks * block_data_size + (residue - block_header_size))

pub record Underlying : Type 0 where
  pub offset : ℕ
  pub limit : ℤ
  pub discard : ℕ
  pub blocks : ℕ

-- How many blocks hold the `limit` bytes that start `discard` bytes into the first.
unfoldable pub blocks_to_read : (discard limit : ℕ) → ℕ
blocks_to_read discard limit =
    let bytes_to_read = limit - (block_data_size - discard) in
    let extra = bytes_to_read / block_data_size in
    if ltb 0 bytes_to_read
    then 1 + (if bytes_to_read % block_data_size == 0 then extra else extra + 1)
    else 1

underlying_limit : (discard : ℕ) → ℤ → ℤ
unfolding blocks_to_read
underlying_limit discard (pos limit) =
    pos (blocks_to_read discard limit * (block_header_size + block_data_size))
underlying_limit discard (negsuc _) = negsuc 0

-- `calculateUnderlying`; a negative limit means no limit.
unfoldable pub calculate_underlying : ℕ → ℤ → Underlying
unfolding underlying_limit
calculate_underlying offset limit =
    let blocks = offset / block_data_size in
    let discard = offset % block_data_size in
    record {
      offset = file_header_size + blocks * (block_header_size + block_data_size);
      limit = underlying_limit discard limit;
      discard = discard;
      blocks = blocks;
    }
