-- ===== src/Sync/Transfer.antt =====
-- `StagePart` of pkg/services/upload_staging.go and `uploadSyncTransferParts` of
-- pkg/services/imports_jobs.go. What Telegram and the job's progress report answer is given, and a
-- message keeps the bytes that its part was made of.
use teldrive_easy.Prelude.{
  ℕ, zero, suc, ◌+◌, ◌-◌, ◌/◌, Bool, true, false, ◌&&◌, ◌||◌, List, [], ◌∷◌, ◌++◌, Option, none,
  some, ◌==◌, ltb, if◌then◌else◌, length, take, drop,
}
use teldrive_easy.Prelude.Int.{ℤ}
use teldrive_easy.Sync.ChunkSize.{normalize_sync_part_size}
use teldrive_easy.Sync.Parts.{Resume, Upload, min_int64, stored_size, sync_transfer_resume_state}

-- `UploadPart` returns the id of the message and the size of the document in it, or fails; the row
-- is stored at some time, or not; the progress is reported, or not.
pub record Reply : Type 0 where
  pub uploaded : Option (ℕ × ℕ)
  pub stored : Bool
  pub created_at : Option ℕ
  pub reported : Bool

pub data Staged : Type 0 where
  upload_failed : Staged
  staged : Upload → Staged

-- `StagePart`.
unfoldable pub part_row :
    (part_no : ℕ) → Bool → (part_size : ℕ) → List ℕ → Reply → (id size : ℕ) → Staged
part_row part_no encrypted part_size content r id size =
    if (id == 0) || (if size == stored_size encrypted part_size then false else true)
    then upload_failed
    else if r.stored
    then staged (record {
      part_id = id;
      part_no = part_no;
      size = stored_size encrypted part_size;
      encrypted = encrypted;
      created_at = r.created_at;
      content = content;
    })
    else upload_failed

unfoldable pub stage_part : (part_no : ℕ) → Bool → (part_size : ℕ) → List ℕ → Reply → Staged
stage_part part_no encrypted part_size content r = elim r.uploaded [
  | none ↦ upload_failed
  | some (id, size) ↦ part_row part_no encrypted part_size content r id size
]

-- What a run leaves: whether it succeeded, and the rows.
abbrev pub Outcome : Type 0
Outcome = Bool × List Upload

unfoldable pub after_stage : Staged → Bool → List Upload → (List Upload → Outcome) → Outcome
after_stage upload_failed reported rows next = (false, rows)
after_stage (staged u) false rows next = (false, rows ++ u ∷ [])
after_stage (staged u) true rows next = next (rows ++ u ∷ [])

-- The loop over the parts, `left` of them; where the replies end, the run is canceled.
unfoldable pub upload_parts :
    (size part_size : ℕ)
    → Bool
    → (left i uploaded : ℕ) → (reader : List ℕ) → List Reply
    → List Upload
    → Outcome
upload_parts size part_size encrypted zero i uploaded reader replies rows = (true, rows)
upload_parts size part_size encrypted (suc left) i uploaded reader [] rows = (false, rows)
upload_parts size part_size encrypted (suc left) i uploaded reader (r ∷ rs) rows =
    let chunk_size = min_int64 part_size (size - uploaded) in
    after_stage (stage_part (suc i) encrypted chunk_size (take chunk_size reader) r) r.reported rows
      (λ us.
        upload_parts size part_size encrypted left (suc i) (uploaded + chunk_size)
          (drop chunk_size reader) rs us)

unfoldable pub total_parts : (size part_size : ℕ) → ℕ
total_parts size part_size = (size + part_size - 1) / part_size

-- The bytes of an earlier run are skipped, which is reported too.
unfoldable pub resumed :
    (size part_size : ℕ) → Bool → List ℕ → Bool → Resume → List Reply → List Upload → Outcome
resumed size part_size encrypted source reported resume replies rows =
    if ltb 0 resume.done_bytes
      && ((ltb (length source) resume.done_bytes) || (if reported then false else true))
    then (false, rows)
    else upload_parts size part_size encrypted (total_parts size part_size - resume.completed_parts)
        resume.completed_parts resume.done_bytes (drop resume.done_bytes source) replies rows

-- `uploadSyncTransferParts`, with the rows that the upload has.
unfoldable pub upload_sync_transfer_parts :
    (part_size : ℤ) → Bool → (size : ℕ) → List ℕ → Bool → List Reply → List Upload → Outcome
upload_sync_transfer_parts part_size encrypted size source reported replies rows =
    let n = normalize_sync_part_size part_size in
    resumed size n encrypted source reported (sync_transfer_resume_state size n encrypted rows)
      replies rows
