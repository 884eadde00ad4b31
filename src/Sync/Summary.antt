-- ===== src/Sync/Summary.antt =====
-- When a run of a mirror is done.
use teldrive_easy.Prelude.{
  ℕ, ◌+◌, ◌≤◌, ◌≡◌, ◌≢◌, dec_lt, ltb-true, ltb-false, refl, Bool, true, false, ◌&&◌, List, [], ◌∷◌,
  Option, none, some, ltb, if◌then◌else◌, arith,
}
use teldrive_easy.Sync.Plan.{
  JobState, RunResult, Stats, count_state, failed_run, finished, snoozed, summarize,
  summarize_sync_workflow, sync_run_result,
}

-- The jobs in a state, of the tasks that have a job.
unfoldable pub in_state : (JobState → Bool) → List (Option JobState) → ℕ
in_state is [] = 0
in_state is (none ∷ tasks) = in_state is tasks
in_state is (some s ∷ tasks) = (if is s then 1 else 0) + in_state is tasks

unfoldable pub is_completed : JobState → Bool
is_completed JobState.completed = true
is_completed _ = false

unfoldable pub is_failed : JobState → Bool
is_failed JobState.cancelled = true
is_failed JobState.discarded = true
is_failed _ = false

unfoldable pub is_job : JobState → Bool
is_job s = true

-- Every job is completed; a task without one is passed over.
abbrev pub AllCompleted : List (Option JobState) → Type 0
AllCompleted [] = Unit
AllCompleted (none ∷ tasks) = AllCompleted tasks
AllCompleted (some s ∷ tasks) = (s ≡ JobState.completed) × AllCompleted tasks

summarize-counts :
    (tasks : List (Option JobState)) (st : Stats)
    → ((summarize tasks st).total ≡ st.total + in_state is_job tasks)
      × ((summarize tasks st).completed ≡ st.completed + in_state is_completed tasks)
      × ((summarize tasks st).failed ≡ st.failed + in_state is_failed tasks)
unfolding summarize count_state in_state is_job is_completed is_failed
summarize-counts [] st = (omega arith, omega arith, omega arith)
summarize-counts (none ∷ tasks) st = summarize-counts tasks st
summarize-counts (some JobState.completed ∷ tasks) st =
    let (t, c, f) = summarize-counts tasks (count_state JobState.completed st) in
    (omega (arith, t), omega (arith, c), omega (arith, f))
summarize-counts (some JobState.cancelled ∷ tasks) st =
    let (t, c, f) = summarize-counts tasks (count_state JobState.cancelled st) in
    (omega (arith, t), omega (arith, c), omega (arith, f))
summarize-counts (some JobState.discarded ∷ tasks) st =
    let (t, c, f) = summarize-counts tasks (count_state JobState.discarded st) in
    (omega (arith, t), omega (arith, c), omega (arith, f))
summarize-counts (some JobState.other_state ∷ tasks) st =
    let (t, c, f) = summarize-counts tasks (count_state JobState.other_state st) in
    (omega (arith, t), omega (arith, c), omega (arith, f))

completed_le :
    (tasks : List (Option JobState)) → in_state is_completed tasks ≤ in_state is_job tasks
unfolding in_state is_completed is_job
completed_le [] = omega arith
completed_le (none ∷ tasks) = completed_le tasks
completed_le (some JobState.completed ∷ tasks) = omega (arith, completed_le tasks)
completed_le (some JobState.cancelled ∷ tasks) = omega (arith, completed_le tasks)
completed_le (some JobState.discarded ∷ tasks) = omega (arith, completed_le tasks)
completed_le (some JobState.other_state ∷ tasks) = omega (arith, completed_le tasks)

all_completed :
    (tasks : List (Option JobState))
    → in_state is_job tasks ≤ in_state is_completed tasks
    → AllCompleted tasks
unfolding in_state is_completed is_job
all_completed [] h = tt
all_completed (none ∷ tasks) h = all_completed tasks h
all_completed (some JobState.completed ∷ tasks) h = (refl, all_completed tasks (omega arith))
all_completed (some JobState.cancelled ∷ tasks) h = absurd (omega (arith, completed_le tasks))
all_completed (some JobState.discarded ∷ tasks) h = absurd (omega (arith, completed_le tasks))
all_completed (some JobState.other_state ∷ tasks) h = absurd (omega (arith, completed_le tasks))

failed_run-ne-finished : failed_run ≢ finished
failed_run-ne-finished e = cc

snoozed-ne-finished : snoozed ≢ finished
snoozed-ne-finished e = cc

-- Three ways for a run to end.
result_of : (total completed failed : ℕ) → RunResult
result_of total completed failed =
    if ltb 0 failed
    then failed_run
    else if ltb 0 total && ltb completed total
    then snoozed
    else finished

result_of-finished :
    (total completed failed : ℕ) → result_of total completed failed ≡ finished → total ≤ completed
unfolding result_of
result_of-finished total completed failed h = elim (dec_lt 0 failed) [
  | yes l ↦ absurd (failed_run-ne-finished (rw (ltb-true {a = 0} {b = failed} l) at h))
  | no l ↦ elim (dec_lt 0 total) [
    | no n ↦ omega arith
    | yes p ↦ elim (dec_lt completed total) [
      | no n ↦ omega arith
      | yes q ↦ absurd (
          snoozed-ne-finished (
            rw
              (
                ltb-false {a = 0} {b = failed} (omega arith),
                ltb-true {a = 0} {b = total} p,
                ltb-true {a = completed} {b = total} q,
              )
              at h))
    ]
  ]
]

-- A run of a mirror reports that it is done only when, of the transfers that it queued, every one
-- that has a job is completed.
pub sync_run_result-finished :
    (tasks : List (Option JobState)) → sync_run_result tasks ≡ finished → AllCompleted tasks
unfolding sync_run_result summarize_sync_workflow result_of
sync_run_result-finished tasks h =
    let (t, c, f) = summarize-counts tasks (record { total = 0; completed = 0; failed = 0 }) in
    let st = summarize tasks (record { total = 0; completed = 0; failed = 0 }) in
    all_completed tasks (omega (arith, t, c, result_of-finished st.total st.completed st.failed h))
