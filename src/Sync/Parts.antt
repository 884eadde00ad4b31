-- ===== src/Sync/Parts.antt =====
-- The parts of a transfer in pkg/services/imports_jobs.go: how large each is, and how many of them
-- are there from an earlier run. Sizes and part numbers are far from the bounds of int64 and int32.
use teldrive_easy.Prelude.{
  ℕ, zero, suc, ◌+◌, ◌-◌, ◌*◌, Bool, true, false, ◌&&◌, List, [], ◌∷◌, Option, none, some, ◌==◌,
  ltb, leb, if◌then◌else◌, length,
}
use teldrive_easy.Events.Maps.{lookup, put}
use teldrive_easy.Crypt.Size.{encrypted_size}

-- A row of the table of uploads, with what its message in the channel holds.
pub record Upload : Type 0 where
  pub part_id : ℕ
  pub part_no : ℕ
  pub size : ℕ
  pub encrypted : Bool
  pub created_at : Option ℕ
  pub content : List ℕ

-- `minInt64`.
unfoldable pub min_int64 : ℕ → ℕ → ℕ
min_int64 a b = if ltb a b then a else b

-- `expectedSyncPartSize`.
unfoldable pub expected_sync_part_size : (total_size part_size part_no : ℕ) → ℕ
expected_sync_part_size total_size part_size zero = 0
expected_sync_part_size total_size part_size (suc i) =
    let start = i * part_size in
    if leb total_size start then 0 else min_int64 part_size (total_size - start)

-- An earlier row of the same part stays only where it is known to be newer.
unfoldable pub is_after : Option ℕ → Option ℕ → Bool
is_after none _ = false
is_after (some t) none = false
is_after (some t) (some u) = ltb u t

unfoldable pub stays : Option Upload → Upload → Bool
stays none u = false
stays (some v) u = is_after v.created_at u.created_at

unfoldable pub by_part : List Upload → List (ℕ × Upload) → List (ℕ × Upload)
by_part [] m = m
by_part (u ∷ us) m = by_part us (if stays (lookup u.part_no m) u then m else put u.part_no u m)

pub record Resume : Type 0 where
  pub completed_parts : ℕ
  pub done_bytes : ℕ

unfoldable pub same : Bool → Bool → Bool
same true b = b
same false true = false
same false false = true

unfoldable pub stored_size : Bool → ℕ → ℕ
stored_size encrypted plain = if encrypted then encrypted_size plain else plain

-- The row is what the part would be stored as.
unfoldable pub fits : (total_size part_size : ℕ) → Bool → (part_no : ℕ) → Upload → Bool
fits total_size part_size encrypted part_no u =
    let expected = expected_sync_part_size total_size part_size part_no in
    ltb 0 expected && same u.encrypted encrypted && (u.size == stored_size encrypted expected)

unfoldable pub resume_loop :
    (total_size part_size : ℕ) → Bool → List (ℕ × Upload) → (fuel part_no : ℕ) → Resume → Resume
resume_loop total_size part_size encrypted m zero part_no r = r
resume_loop total_size part_size encrypted m (suc fuel) part_no r = elim (lookup part_no m) [
  | none ↦ r
  | some u ↦ elim (fits total_size part_size encrypted part_no u) [
    | false ↦ r
    | true ↦ resume_loop total_size part_size encrypted m fuel (suc part_no) (record {
      completed_parts = suc r.completed_parts;
      done_bytes = r.done_bytes + expected_sync_part_size total_size part_size part_no;
    })
  ]
]

-- `syncTransferResumeState`, for the rows of the upload; each turn but the last has a row of its own.
unfoldable pub sync_transfer_resume_state : (total_size part_size : ℕ) → Bool → List Upload → Resume
sync_transfer_resume_state total_size part_size encrypted uploads =
    resume_loop total_size part_size encrypted (by_part uploads []) (suc (length uploads)) 1
      (record { completed_parts = 0; done_bytes = 0 })
