-- ===== src/Cleanup/Stale.antt =====
-- `CleanStaleUploadsForUser` and `CleanPendingFilesForUser` of pkg/services/queue_executor.go. A
-- message is known by its channel and its id; session 0 stands for an empty string.
use teldrive_easy.Prelude.{
  ℕ, Bool, true, false, ◌&&◌, List, [], ◌∷◌, ◌++◌, Option, none, some, ◌==◌, ltb, if◌then◌else◌,
}
use teldrive_easy.Prelude.Members.{has}
use teldrive_easy.Cleanup.Messages.{BatchReply, delete_messages}

pub record StaleUpload : Type 0 where
  pub part_id : ℕ
  pub channel_id : ℕ
  pub user_id : Option ℕ
  pub created_at : ℕ

pub record Message : Type 0 where
  pub channel_id : ℕ
  pub id : ℕ

-- The table of uploads, and the messages that the channels hold.
pub record World : Type 0 where
  pub uploads : List StaleUpload
  pub messages : List Message

pub record GroupKey : Type 0 where
  pub channel_id : ℕ
  pub user_id : ℕ
  pub session : ℕ

pub record Group : Type 0 where
  pub key : GroupKey
  pub part_ids : List ℕ

unfoldable pub key_equal : GroupKey → GroupKey → Bool
key_equal j k =
    (j.channel_id == k.channel_id) && ((j.user_id == k.user_id) && (j.session == k.session))

unfoldable pub add_part : GroupKey → ℕ → List Group → List Group
add_part k p [] = record { key = k; part_ids = p ∷ [] } ∷ []
add_part k p (g ∷ gs) =
    let rest = add_part k p gs in
    if key_equal g.key k then record g { part_ids = g.part_ids ++ p ∷ [] } ∷ gs else g ∷ rest

-- `groupStaleUploads`, with the map of the users' sessions.
unfoldable pub add_row : (ℕ → ℕ) → StaleUpload → Option ℕ → List Group → List Group
add_row sessions row none gs = gs
add_row sessions row (some user) gs =
    if sessions user == 0
    then gs
    else add_part (record { channel_id = row.channel_id; user_id = user; session = sessions user })
        row.part_id gs

unfoldable pub group_stale_uploads : (ℕ → ℕ) → List StaleUpload → List Group → List Group
group_stale_uploads sessions [] gs = gs
group_stale_uploads sessions (row ∷ rows) gs =
    group_stale_uploads sessions rows (add_row sessions row row.user_id gs)

unfoldable pub is_user : ℕ → Option ℕ → Bool
is_user user none = false
is_user user (some u) = u == user

-- `ListStale`, and the rows of the user.
unfoldable pub stale_rows : (before user : ℕ) → List StaleUpload → List StaleUpload
stale_rows before user [] = []
stale_rows before user (row ∷ rows) =
    let rest = stale_rows before user rows in
    if ltb row.created_at before && is_user user row.user_id then row ∷ rest else rest

-- Messages that are deleted are gone.
unfoldable pub without_messages : (channel_id : ℕ) → List ℕ → List Message → List Message
without_messages channel_id ids [] = []
without_messages channel_id ids (m ∷ ms) =
    let rest = without_messages channel_id ids ms in
    if (m.channel_id == channel_id) && has m.id ids then rest else m ∷ rest

-- `DeleteParts`.
unfoldable pub is_part_of : Group → StaleUpload → Bool
is_part_of g row =
    (row.channel_id == g.key.channel_id)
    && (is_user g.key.user_id row.user_id && has row.part_id g.part_ids)

unfoldable pub delete_parts : Group → List StaleUpload → List StaleUpload
delete_parts g [] = []
delete_parts g (row ∷ rows) =
    let rest = delete_parts g rows in if is_part_of g row then rest else row ∷ rest

-- What Telegram answers for a group, batch by batch, and whether the rows could be deleted.
pub record Reply : Type 0 where
  pub batches : List BatchReply
  pub stored : Bool

unfoldable pub delete_channel_messages : Group → Reply → List Message → Bool × List Message
delete_channel_messages g r ms =
    let res = delete_messages g.part_ids r.batches in
    (res.0, without_messages g.key.channel_id res.1 ms)

unfoldable pub clean_group : Group → Reply → World → Bool × World
clean_group g r w =
    let res = delete_channel_messages g r w.messages in
    let cleaned : World = record w { messages = res.1 } in
    if res.0
    then (if r.stored
        then (true, record cleaned { uploads = delete_parts g w.uploads })
        else (false, cleaned))
    else (false, cleaned)

-- The loop over the groups; without a reply it is canceled.
unfoldable pub clean_groups : List Group → List Reply → World → Bool × World
clean_groups [] replies w = (true, w)
clean_groups (g ∷ gs) [] w = (false, w)
clean_groups (g ∷ gs) (r ∷ rs) w =
    let step = clean_group g r w in
    let rest = clean_groups gs rs step.1 in if step.0 then rest else step

unfoldable pub clean_stale_uploads_for_user :
    (ℕ → ℕ) → (before user : ℕ) → List Reply → World → Bool × World
clean_stale_uploads_for_user sessions before user replies w =
    clean_groups (group_stale_uploads sessions (stale_rows before user w.uploads) []) replies w
