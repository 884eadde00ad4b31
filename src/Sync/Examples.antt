-- ===== src/Sync/Examples.antt =====
-- A transfer that is broken off, and taken up again.
use teldrive_easy.Prelude.{
  length, Bool, ◌==◌, if◌then◌else◌, Bool-cases, inl, inr, false, ℕ, ◌+◌, ◌≡◌, refl, take, drop,
  true, List, [], ◌∷◌, none, some, arith,
}
use teldrive_easy.Prelude.Int.{negsuc}
use teldrive_easy.Crypt
use teldrive_easy.Events
use teldrive_easy.Sync
use mathlib.Core.List.{Perm}
use teldrive_easy.Sync.Parts.{Upload, by_part, resume_loop, sync_transfer_resume_state}
use teldrive_easy.Sync.Plan.{
  Entry, Existing, Found, JobState, SourceFile, by_hash, compare_destination_fingerprint, found,
  initialize_sync_workflow, not_found, order_folders,
}
use teldrive_easy.Sync.Removed.{Due}
use teldrive_easy.Sync.Planned.{initialize_sync_workflow-plan}
use teldrive_easy.Sync.Deletions.{Descending, order_folders-sorted}
use teldrive_easy.Sync.ResumeEnds.{resume_loop_ends}
use teldrive_easy.Sync.Summary.{AllCompleted, sync_run_result-finished}
use teldrive_easy.Sync.Transfer.{Reply, upload_sync_transfer_parts}
use teldrive_easy.Sync.Staged.{contents}
use teldrive_easy.Sync.Uploaded.{Numbered, after_runs, upload_sync_transfer_parts-after_runs}
use teldrive_easy.Sync.Finished.{upload_sync_transfer_parts_good}

abbrev source : List ℕ
source = 1 ∷ 2 ∷ 3 ∷ []

abbrev broken : Reply
broken = record { uploaded = none; stored = true; created_at = none; reported = true }

-- The three bytes are one block of 53 bytes when they are encrypted.
abbrev good : Reply
good = record { uploaded = some (8, 53); stored = true; created_at = none; reported = true }

abbrev row : Upload
row = record {
  part_id = 8;
  part_no = 1;
  size = 53;
  encrypted = true;
  created_at = none;
  content = source;
}

upload_sync_transfer_parts-after_runs_example :
    (contents (row ∷ []) ≡ source) × Numbered 1 (row ∷ [])
unfolding Sync.ChunkSize.normalize_sync_part_size Sync.Parts.min_int64 Sync.Parts.by_part
    Sync.Parts.stored_size Sync.Parts.resume_loop Sync.Parts.sync_transfer_resume_state
    Sync.Transfer.part_row Sync.Transfer.stage_part Sync.Transfer.after_stage
    Sync.Transfer.upload_parts Sync.Transfer.total_parts Sync.Transfer.resumed
    Sync.Transfer.upload_sync_transfer_parts Sync.Uploaded.after_runs Events.Maps.lookup
    Crypt.Size.encrypted_size take drop
upload_sync_transfer_parts-after_runs_example =
    upload_sync_transfer_parts-after_runs (negsuc 0) true source ((true, broken ∷ []) ∷ []) true
      (good ∷ []) (row ∷ []) refl

upload_sync_transfer_parts_good_example :
    (upload_sync_transfer_parts
      (negsuc 0)
      true
      3
      source
      true
      (good ∷ [])
      (after_runs (negsuc 0) true source ((true, broken ∷ []) ∷ []) [])).0
    ≡ true
unfolding Sync.ChunkSize.normalize_sync_part_size Sync.Parts.by_part Sync.Parts.stored_size
    Sync.Parts.resume_loop Sync.Parts.sync_transfer_resume_state Sync.Transfer.stage_part
    Sync.Transfer.after_stage Sync.Transfer.upload_parts Sync.Transfer.total_parts
    Sync.Transfer.resumed Sync.Transfer.upload_sync_transfer_parts Sync.Uploaded.after_runs
    Events.Maps.lookup Crypt.Size.encrypted_size
upload_sync_transfer_parts_good_example =
    upload_sync_transfer_parts_good (negsuc 0) true source ((true, broken ∷ []) ∷ []) (good ∷ [])
      (omega arith) (7, refl, refl, refl, tt)

abbrev folder : (id depth : ℕ) → Entry
folder id depth = record { id = id; is_folder = true; depth = depth }

abbrev extra_folders : List Entry
extra_folders = folder 1 0 ∷ folder 2 1 ∷ folder 3 2 ∷ []

order_folders_test : order_folders extra_folders ≡ folder 3 2 ∷ folder 2 1 ∷ folder 1 0 ∷ []
unfolding order_folders Sync.Plan.order_loop Sync.Plan.exchange
order_folders_test = refl

order_folders-sorted_example :
    Descending (order_folders extra_folders) × Perm (order_folders extra_folders) extra_folders
order_folders-sorted_example = order_folders-sorted extra_folders

resume_loop_ends_example :
    resume_loop 3 2 true
      (by_part (row ∷ []) [])
      (2 + 5)
      1
      (record { completed_parts = 0; done_bytes = 0 })
    ≡ sync_transfer_resume_state 3 2 true (row ∷ [])
resume_loop_ends_example = resume_loop_ends 3 2 true (row ∷ []) 5

sync_run_result-finished_example : AllCompleted (some JobState.completed ∷ none ∷ [])
unfolding Sync.Plan.summarize Sync.Plan.summarize_sync_workflow Sync.Plan.sync_run_result
    Sync.Plan.count_state
sync_run_result-finished_example =
    sync_run_result-finished (some JobState.completed ∷ none ∷ []) refl

-- The destination lacks the first file, has the second one, and another version of the third.
abbrev old : Existing
old = record { hash = none; size = some 5; updated_at = 7 }

abbrev found_at : SourceFile → Found
found_at src = if src.rel_path == 1 then not_found else found old

abbrev answers : SourceFile → Bool × Bool
answers src = if src.rel_path == 1 then (false, false) else by_hash src old none

abbrev new_file : SourceFile
new_file = record { rel_path = 1; size = 3; hash = 0; modified = none }

abbrev same_file : SourceFile
same_file = record { rel_path = 2; size = 5; hash = 0; modified = some 7 }

abbrev changed_file : SourceFile
changed_file = record { rel_path = 3; size = 6; hash = 0; modified = none }

compare_destination_fingerprint-answers :
    (src : SourceFile) → compare_destination_fingerprint src (found_at src) ≡ some (answers src)
unfolding Sync.Plan.compare_destination_fingerprint
compare_destination_fingerprint-answers src = elim (Bool-cases (src.rel_path == 1)) [
  | inl e ↦ rw e refl
  | inr e ↦ rw e refl
]

abbrev extra_entries : List Entry
extra_entries =
    record { id = 4; is_folder = true; depth = 0 }
    ∷ record { id = 5; is_folder = false; depth = 0 }
    ∷ []

initialize_sync_workflow-plan_example :
    (gone : List Entry) × (initialize_sync_workflow true
        (some extra_entries)
        (λ e. true)
        (λ src. compare_destination_fingerprint src (found_at src))
        (new_file ∷ same_file ∷ changed_file ∷ [])
      ≡ (
        gone,
        some (record {
          planned = 3;
          queued = 2;
          skipped = 1;
          deleted = length gone;
          bytes_planned = 9;
          tasks = (1, new_file) ∷ (2, changed_file) ∷ [];
        }),
      ))
    × Due true extra_entries gone
unfolding Sync.Planned.is_chosen Sync.Planned.chosen Sync.Planned.numbered Sync.Planned.total_size
    Sync.Plan.by_hash Sync.Plan.by_size Sync.Plan.same_size Sync.Plan.same_time
initialize_sync_workflow-plan_example =
    initialize_sync_workflow-plan true extra_entries (λ e. true)
      (λ src. compare_destination_fingerprint src (found_at src)) answers
      (new_file ∷ same_file ∷ changed_file ∷ []) (λ e. refl) compare_destination_fingerprint-answers
