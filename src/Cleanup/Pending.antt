-- ===== src/Cleanup/Pending.antt =====
-- `CleanPendingFilesForUser` of pkg/services/queue_executor.go. The parts of a file are decoded JSON,
-- `none` where there is none or it is broken.
use teldrive_easy.Prelude.{
  ℕ, Bool, true, false, List, [], ◌∷◌, ◌++◌, Option, none, some, ◌==◌, if◌then◌else◌,
}
use teldrive_easy.Cleanup.Stale.{
  Group, GroupKey, Message, Reply, delete_channel_messages, key_equal,
}

pub record PendingFile : Type 0 where
  pub id : ℕ
  pub parts : Option (List ℕ)
  pub channel_id : Option ℕ
  pub user_id : ℕ

pub record Drive : Type 0 where
  pub pending : List PendingFile
  pub messages : List Message

unfoldable pub part_ids_of : Option (List ℕ) → List ℕ
part_ids_of none = []
part_ids_of (some ids) = ids

unfoldable pub add_parts : GroupKey → List ℕ → List Group → List Group
add_parts k ids [] = record { key = k; part_ids = ids } ∷ []
add_parts k ids (g ∷ gs) =
    let rest = add_parts k ids gs in
    if key_equal g.key k then record g { part_ids = g.part_ids ++ ids } ∷ gs else g ∷ rest

-- `groupPendingFiles`.
unfoldable pub add_file : (ℕ → ℕ) → PendingFile → Option ℕ → List Group → List Group
add_file sessions f none gs = gs
add_file sessions f (some channel) gs =
    if sessions f.user_id == 0
    then gs
    else add_parts
        (record { channel_id = channel; user_id = f.user_id; session = sessions f.user_id })
        (part_ids_of f.parts) gs

unfoldable pub group_pending_files : (ℕ → ℕ) → List PendingFile → List Group → List Group
group_pending_files sessions [] gs = gs
group_pending_files sessions (f ∷ fs) gs =
    group_pending_files sessions fs (add_file sessions f f.channel_id gs)

unfoldable pub files_of : ℕ → List PendingFile → List PendingFile
files_of user [] = []
files_of user (f ∷ fs) = let rest = files_of user fs in if f.user_id == user then f ∷ rest else rest

-- `DeletePendingForDeletionByUser`.
unfoldable pub delete_pending_for_deletion_by_user : ℕ → List PendingFile → List PendingFile
delete_pending_for_deletion_by_user user [] = []
delete_pending_for_deletion_by_user user (f ∷ fs) =
    let rest = delete_pending_for_deletion_by_user user fs in
    if f.user_id == user then rest else f ∷ rest

unfoldable pub delete_groups : List Group → List Reply → List Message → Bool × List Message
delete_groups [] replies ms = (true, ms)
delete_groups (g ∷ gs) [] ms = (false, ms)
delete_groups (g ∷ gs) (r ∷ rs) ms =
    let step = delete_channel_messages g r ms in
    let rest = delete_groups gs rs step.1 in if step.0 then rest else step

-- Where there are no rows of the user, nothing is done; else the rows go when all groups have gone.
unfoldable pub clean_files : (ℕ → ℕ) → ℕ → List Reply → Drive → List PendingFile → Bool × Drive
clean_files sessions user replies d [] = (true, d)
clean_files sessions user replies d (f ∷ fs) =
    let res = delete_groups (group_pending_files sessions (f ∷ fs) []) replies d.messages in
    let cleaned : Drive = record d { messages = res.1 } in
    if res.0
    then (true, record cleaned { pending = delete_pending_for_deletion_by_user user d.pending })
    else (false, cleaned)

unfoldable pub clean_pending_files_for_user : (ℕ → ℕ) → ℕ → List Reply → Drive → Bool × Drive
clean_pending_files_for_user sessions user replies d =
    clean_files sessions user replies d (files_of user d.pending)
