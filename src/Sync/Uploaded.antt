-- ===== src/Sync/Uploaded.antt =====
-- What a transfer stores, over all the runs that it takes.

use teldrive_easy.Prelude.{
  ℕ, suc, ◌+◌, ◌≤◌, ◌<◌, ◌≡◌, refl, sym, ap, ◌∙◌, Bool, true, List, [], ◌∷◌, length, drop,
  drop_zero, arith, subst,
}
use teldrive_easy.Prelude.Int.{ℤ}
use teldrive_easy.Sync.ChunkSize.{normalize_sync_part_size, normalize_sync_part_size_bounds}
use teldrive_easy.Sync.Parts.{Resume, Upload}
use teldrive_easy.Sync.Resume.{PartsFrom, sync_transfer_resume_state-parts}
use teldrive_easy.Sync.Transfer.{Outcome, Reply, resumed, total_parts, upload_sync_transfer_parts}
use teldrive_easy.Sync.Staged.{contents}
use teldrive_easy.Sync.Leaves.{Leaves, contents-parts, resumed-Leaves}

-- The rows are numbered from `n` on.
abbrev pub Numbered : ℕ → List Upload → Type 0
Numbered n [] = Unit
Numbered n (u ∷ us) = (u.part_no ≡ n) × Numbered (suc n) us

-- The runs of a transfer, each with what the progress report of the resumption and Telegram answer.
unfoldable pub after_runs :
    (part_size : ℤ) → Bool → List ℕ → List (Bool × List Reply) → List Upload → List Upload
after_runs part_size encrypted source [] rows = rows
after_runs part_size encrypted source ((reported, rs) ∷ runs) rows =
    after_runs part_size encrypted source runs
      (upload_sync_transfer_parts part_size encrypted (length source) source reported rs rows).1

module _ (part_size : ℤ) (encrypted : Bool) (source : List ℕ) where
  abbrev pub n : ℕ
  n = normalize_sync_part_size part_size

  pub n-pos : 0 < n
  n-pos = omega (arith, (normalize_sync_part_size_bounds part_size).0)

  transfer-Leaves :
      (reported : Bool) (rs : List Reply) (rows : List Upload)
      → PartsFrom (length source) n encrypted source 0 rows
      → Leaves
          (length source)
          n
          encrypted
          source
          n-pos
          refl
          rows
          (upload_sync_transfer_parts part_size encrypted (length source) source reported rs rows)
  unfolding upload_sync_transfer_parts
  transfer-Leaves reported rs rows p =
      subst
        (λ (resume : Resume).
          Leaves (length source) n encrypted source n-pos refl rows
            (resumed (length source) n encrypted source reported resume rs rows))
        (sym (sync_transfer_resume_state-parts (length source) n encrypted source rows n-pos p))
        (resumed-Leaves (length source) n encrypted source n-pos refl reported rs rows p)

  pub after_runs-parts :
      (runs : List (Bool × List Reply)) (rows : List Upload)
      → PartsFrom (length source) n encrypted source 0 rows
      → PartsFrom
          (length source)
          n
          encrypted
          source
          0
          (after_runs part_size encrypted source runs rows)
  unfolding after_runs
  after_runs-parts [] rows p = p
  after_runs-parts ((reported, rs) ∷ runs) rows p =
      after_runs-parts runs _ (transfer-Leaves reported rs rows p).parts

  parts-Numbered :
      (i : ℕ) (us : List Upload)
      → PartsFrom (length source) n encrypted source i us
      → Numbered (suc i) us
  parts-Numbered i [] p = tt
  parts-Numbered i (u ∷ us) p = (p.0.number, parts-Numbered (suc i) us p.1)

  -- However often a transfer was broken off before, whatever failed in it, and whatever part size was
  -- asked for: the run that succeeds leaves the parts with the numbers 1, 2, 3, ..., each of them
  -- once, and their messages hold the bytes of the source, in order.
  pub upload_sync_transfer_parts-after_runs :
      (runs : List (Bool × List Reply)) (reported : Bool) (rs : List Reply) (us : List Upload)
      → upload_sync_transfer_parts part_size encrypted
          (length source)
          source
          reported
          rs
          (after_runs part_size encrypted source runs [])
        ≡ (true, us)
      → (contents us ≡ source) × Numbered 1 us
  upload_sync_transfer_parts-after_runs runs reported rs us e =
      let left =
        transfer-Leaves reported rs (after_runs part_size encrypted source runs [])
          (after_runs-parts runs [] tt) in
      let us_parts : PartsFrom (length source) n encrypted source 0 us =
        subst (PartsFrom (length source) n encrypted source 0) (ap (λ (o : Outcome). o.1) e)
          left.parts in
      let enough : total_parts (length source) n ≤ 0 + length us =
        omega (arith, left.all (ap (λ (o : Outcome). o.0) e), ap (λ (o : Outcome). length o.1) e) in
      (
        contents-parts (length source) n encrypted source n-pos refl 0 us us_parts enough
            ∙ ap (λ (k : ℕ). drop k source) (omega arith)
            ∙ drop_zero source,
        parts-Numbered 0 us us_parts,
      )
