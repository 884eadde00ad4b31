-- ===== src/Sync/Planned.antt =====
-- What the plan of a mirror has, described by the source files that are to be transferred.
use mathlib.Core.Bool.{false≢true}
use teldrive_easy.Prelude.{
  ℕ, suc, ◌+◌, ◌-◌, ◌≤◌, ◌≡◌, refl, sym, ap, ◌∙◌, Bool, true, false, List, [], ◌∷◌, ◌++◌, Option,
  some, if◌then◌else◌, length, append-nil, append_assoc, arith, inl, inr, Bool-cases,
}
use teldrive_easy.Sync.Plan.{
  Entry, Plan, SourceFile, deletions, initialize_sync_workflow, is_skipped, plan_file, plan_files,
  planned_after,
}
use teldrive_easy.Sync.Removed.{Due, delete_entries-all, deletions-InOrder}

-- A file is transferred where the destination has none of its name, and where it has another one
-- and the run mirrors.
unfoldable pub is_chosen : (sync : Bool) → Bool × Bool → Bool
is_chosen sync (exists, true) = false
is_chosen sync (false, false) = true
is_chosen true (true, false) = true
is_chosen false (true, false) = false

unfoldable pub chosen : Bool → (SourceFile → Bool × Bool) → List SourceFile → List SourceFile
chosen sync answers [] = []
chosen sync answers (s ∷ ss) =
    let rest = chosen sync answers ss in if is_chosen sync (answers s) then s ∷ rest else rest

unfoldable pub numbered : ℕ → List SourceFile → List (ℕ × SourceFile)
numbered n [] = []
numbered n (s ∷ ss) = (n, s) ∷ numbered (suc n) ss

unfoldable pub total_size : List SourceFile → ℕ
total_size [] = 0
total_size (s ∷ ss) = s.size + total_size ss

unfoldable plan_of :
    (planned queued skipped deleted bytes_planned : ℕ) → List (ℕ × SourceFile) → Plan
plan_of planned queued skipped deleted bytes_planned tasks = record {
  planned = planned;
  queued = queued;
  skipped = skipped;
  deleted = deleted;
  bytes_planned = bytes_planned;
  tasks = tasks;
}

plan_of_eq :
    {n m q r k l b c : ℕ} {ts us : List (ℕ × SourceFile)} (d : ℕ)
    → n ≡ m
    → q ≡ r
    → k ≡ l
    → b ≡ c
    → ts ≡ us
    → plan_of n q k d b ts ≡ plan_of m r l d c us
plan_of_eq d en eq ek eb et = cc

-- The plan behind `len` more files, those of `c` to be transferred.
unfoldable behind : (n q k d b : ℕ) → List (ℕ × SourceFile) → (len : ℕ) → List SourceFile → Plan
behind n q k d b ts len c =
    plan_of (n + len) (q + length c) (k + (len - length c)) d (b + total_size c)
      (ts ++ numbered (suc q) c)

plan_file_chosen :
    (sync : Bool) (src : SourceFile) (r : Bool × Bool) (n q k d b : ℕ) (ts : List (ℕ × SourceFile))
    → is_chosen sync r ≡ true
    → plan_file sync src r (plan_of n q k d b ts)
      ≡ plan_of (suc n) (suc q) k d (b + src.size) (ts ++ (suc q, src) ∷ [])
unfolding is_chosen plan_file is_skipped plan_of
plan_file_chosen sync src (exists, true) n q k d b ts h = absurd (false≢true h)
plan_file_chosen true src (false, false) n q k d b ts h = refl
plan_file_chosen false src (false, false) n q k d b ts h = refl
plan_file_chosen true src (true, false) n q k d b ts h = refl
plan_file_chosen false src (true, false) n q k d b ts h = absurd (false≢true h)

plan_file_skipped :
    (sync : Bool) (src : SourceFile) (r : Bool × Bool) (n q k d b : ℕ) (ts : List (ℕ × SourceFile))
    → is_chosen sync r ≡ false
    → plan_file sync src r (plan_of n q k d b ts) ≡ plan_of (suc n) q (suc k) d b ts
unfolding is_chosen plan_file is_skipped plan_of
plan_file_skipped sync src (exists, true) n q k d b ts h = refl
plan_file_skipped true src (false, false) n q k d b ts h = absurd (false≢true (sym h))
plan_file_skipped false src (false, false) n q k d b ts h = absurd (false≢true (sym h))
plan_file_skipped true src (true, false) n q k d b ts h = absurd (false≢true (sym h))
plan_file_skipped false src (true, false) n q k d b ts h = refl

module _ (sync : Bool) (compared : SourceFile → Option (Bool × Bool))
    (answers : SourceFile → Bool × Bool)
    (h : (src : SourceFile) → compared src ≡ some (answers src)) where
  plan_files_step :
      (src : SourceFile) (srcs : List SourceFile) (p : Plan)
      → plan_files sync compared (src ∷ srcs) p
        ≡ plan_files sync compared srcs (plan_file sync src (answers src) p)
  unfolding plan_files
  plan_files_step src srcs p = rw (h src, plan_files) refl

  chosen_taken :
      (s : SourceFile) (ss : List SourceFile)
      → is_chosen sync (answers s) ≡ true
      → chosen sync answers (s ∷ ss) ≡ s ∷ chosen sync answers ss
  unfolding chosen
  chosen_taken s ss e = rw e refl

  chosen_left :
      (s : SourceFile) (ss : List SourceFile)
      → is_chosen sync (answers s) ≡ false
      → chosen sync answers (s ∷ ss) ≡ chosen sync answers ss
  unfolding chosen
  chosen_left s ss e = rw e refl

  length-chosen : (srcs : List SourceFile) → length (chosen sync answers srcs) ≤ length srcs
  unfolding chosen
  length-chosen [] = omega arith
  length-chosen (s ∷ ss) = elim (Bool-cases (is_chosen sync (answers s))) [
    | inl e ↦ rw e (omega (arith, length-chosen ss))
    | inr e ↦ rw e (omega (arith, length-chosen ss))
  ]

  -- The files behind a plan: each is counted, and is skipped or has the next task.
  plan_files-chosen :
      (srcs : List SourceFile) (n q k d b : ℕ) (ts : List (ℕ × SourceFile))
      → plan_files sync compared srcs (plan_of n q k d b ts)
        ≡ some (behind n q k d b ts (length srcs) (chosen sync answers srcs))
  unfolding plan_files chosen behind total_size numbered
  plan_files-chosen [] n q k d b ts =
      ap some
        (plan_of_eq d (omega arith) (omega arith) (omega arith) (omega arith) (sym (append-nil ts)))
  plan_files-chosen (s ∷ ss) n q k d b ts =
      let next = plan_files sync compared ss in
      let others = chosen sync answers ss in
      let result : List SourceFile → Option Plan =
        λ c. some (behind n q k d b ts (suc (length ss)) c) in
      plan_files_step s ss (plan_of n q k d b ts) ∙ elim (Bool-cases (is_chosen sync (answers s))) [
        | inl e ↦
            ap next (plan_file_chosen sync s (answers s) n q k d b ts e)
            ∙ plan_files-chosen ss (suc n) (suc q) k d (b + s.size) (ts ++ (suc q, s) ∷ [])
            ∙ ap some (
                plan_of_eq d (omega arith) (omega arith) (omega arith) (omega arith)
                  (append_assoc ts ((suc q, s) ∷ []) (numbered (suc (suc q)) others)))
            ∙ ap result (sym (chosen_taken s ss e))
        | inr e ↦
            ap next (plan_file_skipped sync s (answers s) n q k d b ts e)
            ∙ plan_files-chosen ss (suc n) q (suc k) d b ts
            ∙ ap some (
                plan_of_eq d (omega arith) (omega arith) (omega (arith, length-chosen ss))
                  (omega arith) refl)
            ∙ ap result (sym (chosen_left s ss e))
      ]

module _ (sync : Bool) (compared : SourceFile → Option (Bool × Bool))
    (answers : SourceFile → Bool × Bool) (srcs : List SourceFile)
    (h : (src : SourceFile) → compared src ≡ some (answers src)) where
  planned_after-plan :
      (gone : List Entry)
      → planned_after sync compared srcs (true, gone) ≡ (
        gone,
        some (
            plan_of
              (length srcs)
              (length (chosen sync answers srcs))
              (length srcs - length (chosen sync answers srcs))
              (length gone)
              (total_size (chosen sync answers srcs))
              (numbered 1 (chosen sync answers srcs))),
      )
  unfolding planned_after plan_of behind
  planned_after-plan gone =
      ap (λ (o : Option Plan). (gone, o))
        (plan_files-chosen sync compared answers h srcs 0 0 0 (length gone) 0 []
          ∙ ap some (
              plan_of_eq (length gone) (omega arith) (omega arith) (omega arith) (omega arith)
                refl))

-- The plan of a run in which every file can be compared and every deletion succeeds: the files that
-- the destination lacks, or has another version of where the run mirrors, are the tasks, numbered
-- from 1 in order, and their sizes are summed up; every other file is skipped. Where the run mirrors,
-- exactly what only the destination has is deleted, each entry once, the files before the folders
-- and the deeper of two folders first; where it does not, nothing is.
pub initialize_sync_workflow-plan :
    (sync : Bool) (extra : List Entry) (ok : Entry → Bool)
    → (compared : SourceFile → Option (Bool × Bool)) → (answers : SourceFile → Bool × Bool)
    → (srcs : List SourceFile) → ((e : Entry) → ok e ≡ true)
    → ((src : SourceFile) → compared src ≡ some (answers src))
    → (gone : List Entry) × (initialize_sync_workflow sync (some extra) ok compared srcs ≡ (
      gone,
      some (record {
        planned = length srcs;
        queued = length (chosen sync answers srcs);
        skipped = length srcs - length (chosen sync answers srcs);
        deleted = length gone;
        bytes_planned = total_size (chosen sync answers srcs);
        tasks = numbered 1 (chosen sync answers srcs);
      }),
    ))
      × Due sync extra gone
unfolding initialize_sync_workflow plan_of
initialize_sync_workflow-plan false extra ok compared answers srcs all h =
    ([], planned_after-plan false compared answers srcs h [], refl)
initialize_sync_workflow-plan true extra ok compared answers srcs all h = (
  deletions extra,
  ap (planned_after true compared srcs) (delete_entries-all ok (deletions extra) all)
      ∙ planned_after-plan true compared answers srcs h (deletions extra),
  deletions-InOrder extra,
)
