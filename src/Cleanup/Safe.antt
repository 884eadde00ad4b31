-- ===== src/Cleanup/Safe.antt =====
-- No message is lost sight of by the cleanup of uploads.
use mathlib.Core.Bool.{false≢true}
use teldrive_easy.Prelude.{
  ℕ, ◌≡◌, ◌⊎◌, inl, inr, refl, sym, ap, ◌∙◌, Bool, true, false, ◌&&◌, List, [], ◌∷◌, ◌==◌, ==_iff,
  Bool-cases, subst,
}
use teldrive_easy.Prelude.Members.{has}
use teldrive_easy.Cleanup.Messages.{&&-parts, AllOwn, delete_messages, delete_messages_all}
use teldrive_easy.Cleanup.Stale.{
  Group, Message, Reply, StaleUpload, World, clean_group, clean_groups,
  clean_stale_uploads_for_user, delete_channel_messages, delete_parts, group_stale_uploads,
  is_part_of, is_user, stale_rows, without_messages,
}

abbrev pub In : StaleUpload → List StaleUpload → Type 0
In row [] = ⊥
In row (r ∷ rows) = (r ≡ row) ⊎ In row rows

-- The channel has no message with this id.
abbrev pub Gone : (channel_id id : ℕ) → List Message → Type 0
Gone c p [] = Unit
Gone c p (m ∷ ms) = (((m.channel_id == c) && (m.id == p)) ≡ false) × Gone c p ms

-- The table has the row, or the message is gone.
abbrev pub Tracked : StaleUpload → World → Type 0
Tracked row w = In row w.uploads ⊎ Gone row.channel_id row.part_id w.messages

&&-false : (a b : Bool) → (a ≡ true → b ≡ true → ⊥) → (a && b) ≡ false
&&-false true true h = absurd (h refl refl)
&&-false true false h = refl
&&-false false b h = refl

without_messages-Gone_kept :
    (k : ℕ) (ids : List ℕ) (c p : ℕ) (ms : List Message)
    → Gone c p ms
    → Gone c p (without_messages k ids ms)
unfolding without_messages
without_messages-Gone_kept k ids c p [] h = tt
without_messages-Gone_kept k ids c p (m ∷ ms) h =
    elim (Bool-cases ((m.channel_id == k) && has m.id ids)) [
      | inl e ↦ rw e (without_messages-Gone_kept k ids c p ms h.1)
      | inr e ↦ rw e (h.0, without_messages-Gone_kept k ids c p ms h.1)
    ]

without_messages-Gone :
    (c p : ℕ) (ids : List ℕ) (ms : List Message)
    → has p ids ≡ true
    → Gone c p (without_messages c ids ms)
unfolding without_messages
without_messages-Gone c p ids [] h = tt
without_messages-Gone c p ids (m ∷ ms) h = elim (Bool-cases ((m.channel_id == c) && has m.id ids)) [
  | inl e ↦ rw e (without_messages-Gone c p ids ms h)
  | inr e ↦ rw e (
    &&-false (m.channel_id == c) (m.id == p) (λ same_channel same_id.
        false≢true (sym e ∙ rw (same_channel, (==_iff m.id p).0 same_id, h) refl)),
    without_messages-Gone c p ids ms h,
  )
]

In-delete_parts :
    (g : Group) (row : StaleUpload) (rows : List StaleUpload)
    → In row rows
    → In row (delete_parts g rows) ⊎ (is_part_of g row ≡ true)
unfolding delete_parts
In-delete_parts g row [] h = absurd h
In-delete_parts g row (r ∷ rows) (inl e) = elim (Bool-cases (is_part_of g r)) [
  | inl p ↦ inr (subst (λ (x : StaleUpload). is_part_of g x ≡ true) e p)
  | inr p ↦ inl (rw p (inl e))
]
In-delete_parts g row (r ∷ rows) (inr h) = elim (In-delete_parts g row rows h) [
  | inl i ↦ elim (Bool-cases (is_part_of g r)) [ inl p ↦ inl (rw p i) | inr p ↦ inl (rw p (inr i)) ]
  | inr p ↦ inr p
]

is_part_of-parts :
    (g : Group) (row : StaleUpload)
    → is_part_of g row ≡ true
    → (row.channel_id ≡ g.key.channel_id) × (has row.part_id g.part_ids ≡ true)
unfolding is_part_of
is_part_of-parts g row h =
    let (c, rest) =
      &&-parts (row.channel_id == g.key.channel_id)
        (is_user g.key.user_id row.user_id && has row.part_id g.part_ids) h in
    (
      (==_iff row.channel_id g.key.channel_id).0 c,
      (&&-parts (is_user g.key.user_id row.user_id) (has row.part_id g.part_ids) rest).1,
    )

clean_group-Tracked :
    (g : Group) (r : Reply) (row : StaleUpload) (w : World)
    → AllOwn r.batches
    → Tracked row w
    → Tracked row (clean_group g r w).1
unfolding clean_group delete_channel_messages
clean_group-Tracked g r row w own (inr gone) =
    elim (Bool-cases (delete_messages g.part_ids r.batches).0) [
      | inl e ↦ elim (Bool-cases r.stored) [
        | inl s ↦ rw (e, s) (inr kept)
        | inr s ↦ rw (e, s) (inr kept)
      ]
      | inr e ↦ rw e (inr kept)
    ]
  where
    kept :
        Gone row.channel_id row.part_id
          (without_messages g.key.channel_id (delete_messages g.part_ids r.batches).1 w.messages)
    kept =
        without_messages-Gone_kept g.key.channel_id (delete_messages g.part_ids r.batches).1
          row.channel_id row.part_id w.messages gone
clean_group-Tracked g r row w own (inl h) =
    elim (Bool-cases (delete_messages g.part_ids r.batches).0) [
      | inl e ↦ elim (Bool-cases r.stored) [
        | inl s ↦ elim (In-delete_parts g row w.uploads h) [
          | inl i ↦ rw (e, s) (inl i)
          | inr p ↦
              let (c, part) = is_part_of-parts g row p in
              let gone : Gone row.channel_id row.part_id (
                  without_messages g.key.channel_id (delete_messages g.part_ids r.batches).1
                    w.messages) =
                subst
                  (λ (k : ℕ).
                    Gone row.channel_id row.part_id
                      (without_messages k (delete_messages g.part_ids r.batches).1 w.messages))
                  c
                  (without_messages-Gone row.channel_id row.part_id
                    (delete_messages g.part_ids r.batches).1 w.messages
                    (ap (has row.part_id) (delete_messages_all g.part_ids r.batches own e)
                      ∙ part)) in
              rw (e, s) (inr gone)
        ]
        | inr s ↦ rw (e, s) (inl h)
      ]
      | inr e ↦ rw e (inl h)
    ]

-- The batches of a group do not return one another's answers.
abbrev pub AllRepliesOwn : List Reply → Type 0
AllRepliesOwn [] = Unit
AllRepliesOwn (r ∷ rs) = AllOwn r.batches × AllRepliesOwn rs

clean_groups-Tracked :
    (gs : List Group) (rs : List Reply) (row : StaleUpload) (w : World)
    → AllRepliesOwn rs
    → Tracked row w
    → Tracked row (clean_groups gs rs w).1
unfolding clean_groups
clean_groups-Tracked [] rs row w own h = h
clean_groups-Tracked (g ∷ gs) [] row w own h = h
clean_groups-Tracked (g ∷ gs) (r ∷ rs) row w own h =
    let stepped = clean_group-Tracked g r row w own.0 h in
    let rest = clean_groups-Tracked gs rs row (clean_group g r w).1 own.1 stepped in
    elim (Bool-cases (clean_group g r w).0) [ inl e ↦ rw e rest | inr e ↦ rw e stepped ]

-- Whatever Telegram and the database answer, and wherever the job is broken off, as long as each
-- batch of messages returns its own answer: an upload that had a row before the cleanup has its row
-- still, or its message is gone from the channel. So nothing stays in a channel that no row points
-- to.
pub clean_stale_uploads_for_user-Tracked :
    (sessions : ℕ → ℕ) (before user : ℕ) (rs : List Reply) (w : World) (row : StaleUpload)
    → AllRepliesOwn rs
    → In row w.uploads
    → In row (clean_stale_uploads_for_user sessions before user rs w).1.uploads
      ⊎ Gone row.channel_id row.part_id
          (clean_stale_uploads_for_user sessions before user rs w).1.messages
unfolding clean_stale_uploads_for_user
clean_stale_uploads_for_user-Tracked sessions before user rs w row own h =
    clean_groups-Tracked (group_stale_uploads sessions (stale_rows before user w.uploads) []) rs row
      w own (inl h)
