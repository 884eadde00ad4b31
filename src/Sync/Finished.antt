-- ===== src/Sync/Finished.antt =====
-- A transfer in which nothing fails.
use teldrive_easy.Prelude.{
  ℕ, zero, suc, ◌+◌, ◌-◌, ◌*◌, ◌≤◌, ◌<◌, ◌≡◌, refl, sym, ap, ap₂, ◌∙◌, Bool, true, false, ◌&&◌,
  List, [], ◌∷◌, ◌++◌, some, ==_true, ==_false, ltb, ltb-false, length, drop, drop-drop, take, min,
  arith,
}
use teldrive_easy.Prelude.Int.{ℤ}
use teldrive_easy.Sync.ChunkSize.{normalize_sync_part_size}
use teldrive_easy.Sync.Parts.{Resume, Upload, min_int64, stored_size}
use teldrive_easy.Sync.Resume.{
  PartsFrom, min_int64-min, reached, resume_at, sync_transfer_resume_state-parts,
}
use teldrive_easy.Sync.Transfer.{
  Outcome, Reply, Staged, after_stage, part_row, resumed, stage_part, staged, total_parts,
  upload_parts, upload_sync_transfer_parts,
}
use teldrive_easy.Sync.Leaves.{next_start, parts_le, total_lt}
use teldrive_easy.Sync.Uploaded.{after_runs, after_runs-parts, n-pos}

-- Telegram answers with a message of the right size, and the row and the report are written.
abbrev pub GoodFrom : (size part_size : ℕ) → Bool → ℕ → List Reply → Type 0
GoodFrom size part_size encrypted i [] = Unit
GoodFrom size part_size encrypted i (r ∷ rs) =
    (id : ℕ) × (r.uploaded
      ≡ some (suc id, stored_size encrypted (min part_size (size - i * part_size))))
    × (r.stored ≡ true)
    × (r.reported ≡ true)
    × GoodFrom size part_size encrypted (suc i) rs

abbrev row_of : (n : ℕ) → Bool → (chunk : ℕ) → List ℕ → Reply → (id : ℕ) → Upload
row_of n enc chunk content r id = record {
  part_id = id;
  part_no = n;
  size = stored_size enc chunk;
  encrypted = enc;
  created_at = r.created_at;
  content = content;
}

and_false : (b : Bool) → (b && false) ≡ false
and_false true = refl
and_false false = refl

part_row_good :
    (n : ℕ) (enc : Bool) (chunk : ℕ) (content : List ℕ) (r : Reply) (id : ℕ)
    → r.stored ≡ true
    → part_row n enc chunk content r (suc id) (stored_size enc chunk)
      ≡ staged (row_of n enc chunk content r (suc id))
unfolding part_row
part_row_good n enc chunk content r id h =
    rw
      (
        ==_false (suc id) 0 (λ e. omega (arith, e)),
        ==_true (stored_size enc chunk) (stored_size enc chunk) refl,
        h,
      )
      refl

stage_part_good :
    (n : ℕ) (enc : Bool) (chunk : ℕ) (content : List ℕ) (r : Reply) (id : ℕ)
    → r.uploaded ≡ some (suc id, stored_size enc chunk)
    → r.stored ≡ true
    → stage_part n enc chunk content r ≡ staged (row_of n enc chunk content r (suc id))
unfolding stage_part
stage_part_good n enc chunk content r id up h =
    rw (up, stage_part) (part_row_good n enc chunk content r id h)

module _ (size part_size : ℕ) (encrypted : Bool) (source : List ℕ) (pos : 0 < part_size)
    (whole : length source ≡ size) where
  chunk_within :
      (i : ℕ)
      → i * part_size < size
      → min part_size (size - i * part_size) ≡ min_int64 part_size (size - reached size part_size i)
  chunk_within i h =
      sym (min_int64-min part_size (size - reached size part_size i) ∙ omega (arith, h))

  upload_parts_good :
      (left i : ℕ) (rs : List Reply) (rows : List Upload)
      → total_parts size part_size ≡ i + left
      → left ≤ length rs
      → GoodFrom size part_size encrypted i rs
      → (upload_parts size part_size encrypted left i
          (reached size part_size i)
          (drop (reached size part_size i) source)
          rs
          rows).0
        ≡ true
  unfolding upload_parts after_stage
  upload_parts_good zero i rs rows t l g = refl
  upload_parts_good (suc left) i [] rows t l g = absurd (omega arith)
  upload_parts_good (suc left) i (r ∷ rs) rows t l g =
      let (id, up, st, rep, rest) = g in
      let h : i * part_size < size =
        total_lt size part_size encrypted source pos whole i (omega arith) in
      let chunk = min_int64 part_size (size - reached size part_size i) in
      let next : List Upload → Outcome = λ us.
        upload_parts size part_size encrypted left (suc i) (reached size part_size i + chunk)
          (drop chunk (drop (reached size part_size i) source)) rs us in
      let u : Upload =
        row_of (suc i) encrypted chunk (take chunk (drop (reached size part_size i) source)) r
          (suc id) in
      let done =
        stage_part_good (suc i) encrypted chunk
          (take chunk (drop (reached size part_size i) source)) r id
          (up ∙ ap (λ (c : ℕ). some (suc id, stored_size encrypted c)) (chunk_within i h)) st in
      ap₂ (λ (x : Staged) (b : Bool). (after_stage x b rows next).0) done rep
      ∙ ap₂
          (λ (k : ℕ) (reader : List ℕ).
            (upload_parts size part_size encrypted left (suc i) k reader rs (rows ++ u ∷ [])).0)
          (next_start size part_size encrypted source pos whole i h)
          (drop-drop chunk (reached size part_size i) source
            ∙ ap (λ (k : ℕ). drop k source)
                (next_start size part_size encrypted source pos whole i h))
      ∙ upload_parts_good left (suc i) rs (rows ++ u ∷ []) (omega arith) (omega arith) rest

  resumed_good :
      (rs : List Reply) (rows : List Upload)
      → PartsFrom size part_size encrypted source 0 rows
      → total_parts size part_size ≤ length rows + length rs
      → GoodFrom size part_size encrypted (length rows) rs
      → (resumed size part_size encrypted source true
          (resume_at size part_size (length rows))
          rs
          rows).0
        ≡ true
  unfolding resumed
  resumed_good rs rows p l g =
      rw
        (
          ltb-false {a = length source} {b = reached size part_size (length rows)}
              (omega (arith, whole)),
          and_false (ltb 0 (reached size part_size (length rows))),
        )
        (upload_parts_good (total_parts size part_size - length rows) (length rows) rs rows
          (omega (arith, parts_le size part_size encrypted source pos whole 0 rows p (omega arith)))
          (omega arith) g)

-- A run in which Telegram and the database do what they are asked succeeds, wherever the runs before
-- it were broken off, if there is an answer for every part that is missing.
pub upload_sync_transfer_parts_good :
    (part_size : ℤ) (encrypted : Bool) (source : List ℕ) (runs : List (Bool × List Reply))
    (rs : List Reply)
    → total_parts (length source) (normalize_sync_part_size part_size)
      ≤ length (after_runs part_size encrypted source runs []) + length rs
    → GoodFrom
        (length source)
        (normalize_sync_part_size part_size)
        encrypted
        (length (after_runs part_size encrypted source runs []))
        rs
    → (upload_sync_transfer_parts part_size encrypted
        (length source)
        source
        true
        rs
        (after_runs part_size encrypted source runs [])).0
      ≡ true
unfolding upload_sync_transfer_parts
upload_sync_transfer_parts_good part_size encrypted source runs rs l g =
    let n = normalize_sync_part_size part_size in
    let rows = after_runs part_size encrypted source runs [] in
    let p = after_runs-parts part_size encrypted source runs [] tt in
    ap (λ (resume : Resume). (resumed (length source) n encrypted source true resume rs rows).0)
      (sync_transfer_resume_state-parts (length source) n encrypted source rows
        (n-pos part_size encrypted source) p)
    ∙ resumed_good (length source) n encrypted source (n-pos part_size encrypted source) refl rs
        rows p l g
