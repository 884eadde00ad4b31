-- ===== src/Cleanup/Examples.antt =====
-- Cleanups of one user.
use teldrive_easy.Prelude.{ℕ, ◌≡◌, ◌⊎◌, inl, refl, true, false, [], ◌∷◌, some}
use teldrive_easy.Cleanup
use teldrive_easy.Cleanup.Messages.{
  AllShort, batches, delete_messages, delete_messages_all, joined, joined-batches, delete_batches,
}
use teldrive_easy.Cleanup.Stale.{Reply, StaleUpload, World, clean_stale_uploads_for_user}
use teldrive_easy.Cleanup.Safe.{Gone, In, clean_stale_uploads_for_user-Tracked}
use teldrive_easy.Cleanup.Pending.{Drive, clean_pending_files_for_user}

abbrev upload : ℕ → StaleUpload
upload id = record { part_id = id; channel_id = 3; user_id = some 7; created_at = 1 }

abbrev world : World
world = record {
  uploads = upload 5 ∷ upload 6 ∷ [];
  messages = record { channel_id = 3; id = 5 } ∷ record { channel_id = 3; id = 6 } ∷ [];
}

abbrev session_of : ℕ → ℕ
session_of user = 70

abbrev done : Reply
done = record { batches = record { ok = true; returns_ok = true } ∷ []; stored = true }

clean_stale_uploads_for_user-Tracked_example :
    In (upload 5) (clean_stale_uploads_for_user session_of 9 7 (done ∷ []) world).1.uploads
    ⊎ Gone 3 5 (clean_stale_uploads_for_user session_of 9 7 (done ∷ []) world).1.messages
clean_stale_uploads_for_user-Tracked_example =
    clean_stale_uploads_for_user-Tracked session_of 9 7 (done ∷ []) world (upload 5)
      ((refl, tt), tt) (inl refl)

abbrev no_session : ℕ → ℕ
no_session user = 0

abbrev drive : Drive
drive = record {
  pending = record { id = 1; parts = some (5 ∷ []); channel_id = some 3; user_id = 7 } ∷ [];
  messages = record { channel_id = 3; id = 5 } ∷ [];
}

-- Without a session the message stays, and the row that points to it goes.
pending_leak_test :
    clean_pending_files_for_user no_session 7 [] drive ≡ (true, record drive { pending = [] })
unfolding Cleanup.Pending.add_file Cleanup.Pending.group_pending_files Cleanup.Pending.files_of
    Cleanup.Pending.delete_pending_for_deletion_by_user Cleanup.Pending.delete_groups
    Cleanup.Pending.clean_files Cleanup.Pending.clean_pending_files_for_user
pending_leak_test = refl

-- Two batches: the error of the first one is overwritten before it is returned, and the deletion
-- reports success, though message 5 is still there.
lost_error_test :
    delete_batches
      ((5 ∷ []) ∷ (6 ∷ []) ∷ [])
      (record { ok = false; returns_ok = true } ∷ record { ok = true; returns_ok = true } ∷ [])
    ≡ (true, 6 ∷ [])
unfolding Cleanup.Messages.delete_batches
lost_error_test = refl
