-- ===== src/Sync/Plan.antt =====
-- What a run of a mirror plans, and when it is done: `compareDestinationFingerprint`,
-- `initializeSyncWorkflow`, `summarizeSyncWorkflow`, `SyncRun` and `syncPollInterval` of
-- pkg/services/imports_jobs.go. Hashes and ids are opaque numbers, 0 for an empty one.
use teldrive_easy.Prelude.{
  ℕ, zero, suc, ◌+◌, Bool, true, false, ◌&&◌, ◌||◌, List, [], ◌∷◌, ◌++◌, Option, none, some, ◌==◌,
  ltb, if◌then◌else◌, length,
}
use teldrive_easy.Prelude.Int.{ℤ, pos, negsuc}

pub record SourceFile : Type 0 where
  pub rel_path : ℕ
  pub size : ℕ
  pub hash : ℕ
  pub modified : Option ℕ

pub record Existing : Type 0 where
  pub hash : Option ℕ
  pub size : Option ℕ
  pub updated_at : ℕ

-- What the lookup at the destination gives.
pub data Found : Type 0 where
  not_found broken : Found
  found : Existing → Found

unfoldable pub same_size : ℕ → Option ℕ → Bool
same_size size none = false
same_size size (some n) = n == size

unfoldable pub same_time : ℕ → Option ℕ → Bool
same_time t none = false
same_time t (some m) = t == m

-- Whether the file exists, and whether it is the same.
unfoldable pub by_size : SourceFile → Existing → Bool × Bool
by_size src e =
    if same_size src.size e.size then (true, same_time e.updated_at src.modified) else (true, false)

unfoldable pub by_hash : SourceFile → Existing → Option ℕ → Bool × Bool
by_hash src e none = by_size src e
by_hash src e (some h) =
    if (src.hash == 0) || (h == 0) then by_size src e else (true, src.hash == h)

unfoldable pub compare_destination_fingerprint : SourceFile → Found → Option (Bool × Bool)
compare_destination_fingerprint src not_found = some (false, false)
compare_destination_fingerprint src broken = none
compare_destination_fingerprint src (found e) = some (by_hash src e e.hash)

pub record Entry : Type 0 where
  pub id : ℕ
  pub is_folder : Bool
  pub depth : ℕ

unfoldable pub folders : List Entry → List Entry
folders [] = []
folders (e ∷ es) = let rest = folders es in if e.is_folder then e ∷ rest else rest

unfoldable pub files : List Entry → List Entry
files [] = []
files (e ∷ es) = let rest = files es in if e.is_folder then rest else e ∷ rest

-- The exchanges for one `i`: the deepest entry comes to the front.
unfoldable pub exchange : Entry → List Entry → Entry × List Entry
exchange x [] = (x, [])
exchange x (y ∷ ys) =
    let r = exchange (if ltb x.depth y.depth then y else x) ys in
    (r.0, (if ltb x.depth y.depth then x else y) ∷ r.1)

-- The loop over `i`, on the folders that are left.
unfoldable pub order_loop : (fuel : ℕ) → List Entry → List Entry
order_loop zero es = es
order_loop (suc fuel) [] = []
order_loop (suc fuel) (x ∷ xs) = let r = exchange x xs in r.0 ∷ order_loop fuel r.1

unfoldable pub order_folders : List Entry → List Entry
order_folders es = order_loop (length es) es

-- Files first, then the folders.
unfoldable pub deletions : List Entry → List Entry
deletions es = files es ++ order_folders (folders es)

-- `FilesDeleteById` for one entry after the other, until one fails.
unfoldable pub delete_entries : (Entry → Bool) → List Entry → Bool × List Entry
delete_entries ok [] = (true, [])
delete_entries ok (e ∷ es) =
    let rest = delete_entries ok es in if ok e then (rest.0, e ∷ rest.1) else (false, [])

pub record Plan : Type 0 where
  pub planned : ℕ
  pub queued : ℕ
  pub skipped : ℕ
  pub deleted : ℕ
  pub bytes_planned : ℕ
  pub tasks : List (ℕ × SourceFile)

unfoldable pub is_skipped : (sync exists is_same : Bool) → Bool
is_skipped sync exists is_same = is_same || (exists && (if sync then false else true))

unfoldable pub plan_file : Bool → SourceFile → Bool × Bool → Plan → Plan
plan_file sync src (exists, is_same) p =
    if is_skipped sync exists is_same
    then record p { planned = suc p.planned; skipped = suc p.skipped }
    else record p {
      planned = suc p.planned;
      queued = suc p.queued;
      bytes_planned = p.bytes_planned + src.size;
      tasks = p.tasks ++ (suc p.queued, src) ∷ [];
    }

unfoldable pub plan_files :
    Bool → (SourceFile → Option (Bool × Bool)) → List SourceFile → Plan → Option Plan
plan_files sync compared [] p = some p
plan_files sync compared (src ∷ srcs) p = elim (compared src) [
  | none ↦ none
  | some r ↦ plan_files sync compared srcs (plan_file sync src r p)
]

-- The rest of it, after the deletions.
unfoldable pub planned_after :
    Bool
    → (SourceFile → Option (Bool × Bool))
    → List SourceFile
    → Bool × List Entry
    → List Entry × Option Plan
planned_after sync compared srcs (false, gone) = (gone, none)
planned_after sync compared srcs (true, gone) = (
  gone,
  plan_files sync compared srcs (record {
    planned = 0;
    queued = 0;
    skipped = 0;
    deleted = length gone;
    bytes_planned = 0;
    tasks = [];
  }),
)

-- `initializeSyncWorkflow`, with what `extraDestinationEntries` answers, `none` for an error: the
-- entries that were deleted, and the plan, if there is one.
unfoldable pub initialize_sync_workflow :
    Bool
    → Option (List Entry)
    → (Entry → Bool)
    → (SourceFile → Option (Bool × Bool))
    → List SourceFile
    → List Entry × Option Plan
initialize_sync_workflow false extra ok compared srcs = planned_after false compared srcs (true, [])
initialize_sync_workflow true none ok compared srcs = ([], none)
initialize_sync_workflow true (some extra) ok compared srcs =
    planned_after true compared srcs (delete_entries ok (deletions extra))

pub data JobState : Type 0 where
  completed cancelled discarded : JobState
  other_state : JobState

pub record Stats : Type 0 where
  pub total : ℕ
  pub completed : ℕ
  pub failed : ℕ

-- `summarizeSyncWorkflow`, of the transfers; a task may have no job.
unfoldable pub count_state : JobState → Stats → Stats
count_state completed st = record st { total = suc st.total; completed = suc st.completed }
count_state cancelled st = record st { total = suc st.total; failed = suc st.failed }
count_state discarded st = record st { total = suc st.total; failed = suc st.failed }
count_state other_state st = record st { total = suc st.total }

unfoldable pub summarize : List (Option JobState) → Stats → Stats
summarize [] st = st
summarize (none ∷ tasks) st = summarize tasks st
summarize (some s ∷ tasks) st = summarize tasks (count_state s st)

unfoldable pub summarize_sync_workflow : List (Option JobState) → Stats
summarize_sync_workflow tasks = summarize tasks (record { total = 0; completed = 0; failed = 0 })

-- The end of `SyncRun`.
pub data RunResult : Type 0 where
  failed_run snoozed finished : RunResult

unfoldable pub sync_run_result : List (Option JobState) → RunResult
sync_run_result tasks =
    let st = summarize_sync_workflow tasks in
    if ltb 0 st.failed
    then failed_run
    else if ltb 0 st.total && ltb st.completed st.total
    then snoozed
    else finished

-- `syncPollInterval`, in seconds.
unfoldable pub sync_poll_interval : ℤ → ℕ
sync_poll_interval (negsuc n) = 5
sync_poll_interval (pos zero) = 5
sync_poll_interval (pos (suc n)) = if ltb 300 (suc n) then 300 else suc n
