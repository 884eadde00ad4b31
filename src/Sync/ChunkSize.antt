-- ===== src/Sync/ChunkSize.antt =====
-- `normalizeSyncPartSize` of pkg/services/sync_chunk_size.go.
use teldrive_easy.Prelude.{
  ℕ, zero, suc, ◌+◌, ◌*◌, ◌/◌, ◌%◌, ◌≤◌, ◌≡◌, ltb, if◌then◌else◌, arith, min,
}
use teldrive_easy.Prelude.Int.{ℤ, pos, negsuc}

abbrev pub max_sync_chunk_size : ℕ
max_sync_chunk_size = 2000 * 1048576

abbrev pub default_sync_chunk_size : ℕ
default_sync_chunk_size = 512 * 1048576

abbrev pub min_sync_chunk_size : ℕ
min_sync_chunk_size = 64 * 1048576

abbrev pub sync_chunk_block_size : ℕ
sync_chunk_block_size = 16 * 1048576

unfoldable pub larger : ℕ → ℕ → ℕ
larger a b = if ltb a b then b else a

unfoldable pub clamped : ℕ → ℕ
clamped size = min (larger size min_sync_chunk_size) max_sync_chunk_size

unfoldable pub aligned : ℕ → ℕ
aligned n = (n + sync_chunk_block_size / 2) / sync_chunk_block_size * sync_chunk_block_size

unfoldable pub normalize_sync_part_size : ℤ → ℕ
normalize_sync_part_size (negsuc n) = default_sync_chunk_size
normalize_sync_part_size (pos zero) = default_sync_chunk_size
normalize_sync_part_size (pos (suc n)) = min (aligned (clamped (suc n))) max_sync_chunk_size

clamped_bounds : (n : ℕ) → (min_sync_chunk_size ≤ clamped n) × (clamped n ≤ max_sync_chunk_size)
unfolding clamped larger
clamped_bounds n = ground arith

-- The part size that is used is between 64 and 2000 MiB and a multiple of 16 MiB, whatever number is
-- asked for.
pub normalize_sync_part_size_bounds :
    (size : ℤ)
    → (min_sync_chunk_size ≤ normalize_sync_part_size size)
      × (normalize_sync_part_size size ≤ max_sync_chunk_size)
      × (normalize_sync_part_size size % sync_chunk_block_size ≡ 0)
unfolding normalize_sync_part_size aligned
normalize_sync_part_size_bounds (negsuc n) = ground arith
normalize_sync_part_size_bounds (pos zero) = ground arith
normalize_sync_part_size_bounds (pos (suc n)) =
    let (lo, hi) = clamped_bounds (suc n) in (omega arith, omega arith, omega arith)
