-- ===== src/Hash.antt =====
-- `BlockHasher` of internal/hash/hash.go: the hashes of the blocks of a stream.
pub mod Blocks
use teldrive_easy.Prelude.{
  ℕ, zero, suc, ◌+◌, ◌-◌, ◌*◌, ◌≡◌, Bool, true, false, List, [], ◌∷◌, ◌++◌, Option, none, some, ltb,
  leb, ◌==◌, if◌then◌else◌, length, take, drop, min,
}

-- 16 MiB.
abbrev pub block_size : ℕ
block_size = 16 * 1024 * 1024

-- `current_hash` is what the running hash was given.
pub record BlockHasher : Type 0 where
  pub block_size : ℕ
  pub current_hash : List ℕ
  pub block_hashes : List (List ℕ)
  pub bytes_in_block : ℕ

unfoldable pub new_block_hasher : BlockHasher
new_block_hasher = record {
  block_size = block_size;
  current_hash = [];
  block_hashes = [];
  bytes_in_block = 0;
}

unfoldable pub concat : List (List ℕ) → List ℕ
concat [] = []
concat (b ∷ bs) = b ++ concat bs

-- The hash of a whole list of bytes; `Write` adds to what a hash was given.
module _ (blake3 : List ℕ → List ℕ) where
  -- The end of one turn of the loop of `Write`: a full block is closed.
  unfoldable pub close_full : BlockHasher → BlockHasher
  close_full h =
      if leb h.block_size h.bytes_in_block
      then record h {
        block_hashes = h.block_hashes ++ blake3 h.current_hash ∷ [];
        bytes_in_block = 0;
      }
      else h

  -- One turn: as many bytes as the block has room for, into a new hash where the block is new.
  unfoldable pub to_write : BlockHasher → List ℕ → ℕ
  to_write h p = min (length p) (h.block_size - h.bytes_in_block)

  unfoldable pub write_some : List ℕ → BlockHasher → BlockHasher
  write_some p h = close_full (record h {
    current_hash = (if h.bytes_in_block == 0 then [] else h.current_hash) ++ take (to_write h p) p;
    bytes_in_block = h.bytes_in_block + to_write h p;
  })

  -- The loop of `Write`, for as many turns as `fuel`.
  unfoldable pub write_loop : ℕ → List ℕ → BlockHasher → BlockHasher
  write_loop zero p h = h
  write_loop (suc fuel) [] h = h
  write_loop (suc fuel) (x ∷ p) h =
      write_loop fuel (drop (to_write h (x ∷ p)) (x ∷ p)) (write_some (x ∷ p) h)

  -- Every turn takes a byte at least.
  unfoldable pub write : List ℕ → BlockHasher → ℕ × BlockHasher
  write p h = (length p, write_loop (length p) p h)

  unfoldable pub finish : BlockHasher → BlockHasher
  finish h =
      if ltb 0 h.bytes_in_block
      then record h {
        block_hashes = h.block_hashes ++ blake3 h.current_hash ∷ [];
        bytes_in_block = 0;
      }
      else h

  unfoldable pub sum : BlockHasher → List ℕ × BlockHasher
  sum h = (concat (finish h).block_hashes, finish h)

  unfoldable pub compute_tree_hash : List ℕ → List ℕ
  compute_tree_hash hashes = blake3 hashes

unfoldable pub block_count : BlockHasher → ℕ
block_count h = length h.block_hashes

unfoldable pub reset : BlockHasher → BlockHasher
reset h = record h { block_hashes = []; bytes_in_block = 0 }
