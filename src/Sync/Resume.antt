-- ===== src/Sync/Resume.antt =====
-- What is there of a transfer, found again.

use teldrive_easy.Prelude.{
  ℕ, zero, suc, ◌+◌, ◌-◌, ◌*◌, ◌≤◌, ◌<◌, ◌≡◌, refl, sym, ap, ◌∙◌, Bool, true, false, List, [], ◌∷◌,
  Option, none, some, ==_true, ltb-true, leb-false, if◌then◌else◌, length, take, drop, min, arith,
  subst,
}
use teldrive_easy.Events.Maps.{lookup, put, lookup-put, lookup-put_ne}
use teldrive_easy.Sync.Parts.{
  Resume, Upload, by_part, expected_sync_part_size, fits, min_int64, resume_loop, same, stays,
  stored_size, sync_transfer_resume_state,
}

pub min_int64-min : (a b : ℕ) → min_int64 a b ≡ min a b
unfolding min_int64
min_int64-min a b = ground arith

same_self : (b : Bool) → same b b ≡ true
unfolding same
same_self true = refl
same_self false = refl

-- Where the part behind the first `i` starts.
abbrev pub reached : (size part_size i : ℕ) → ℕ
reached size part_size i = min (i * part_size) size

abbrev pub resume_at : (size part_size k : ℕ) → Resume
resume_at size part_size k = record { completed_parts = k; done_bytes = reached size part_size k }

pub reached-suc :
    (size part_size i : ℕ)
    → i * part_size < size
    → reached size part_size i + min part_size (size - i * part_size)
      ≡ reached size part_size (suc i)
reached-suc size part_size i h = omega arith

-- The sizes of a transfer, and the bytes of its source.
module _ (size part_size : ℕ) (encrypted : Bool) (source : List ℕ) where
  -- What the part behind the first `i` is stored as.
  pub record IsPart (i : ℕ) (u : Upload) : Type 0 where
    pub number : u.part_no ≡ suc i
    pub kind : u.encrypted ≡ encrypted
    pub stored : u.size ≡ stored_size encrypted (min part_size (size - i * part_size))
    pub bytes : u.content ≡ take part_size (drop (i * part_size) source)
    pub within : i * part_size < size

  -- Rows of the parts behind the first `i`, in order.
  abbrev pub PartsFrom : ℕ → List Upload → Type 0
  PartsFrom i [] = Unit
  PartsFrom i (u ∷ us) = IsPart i u × PartsFrom (suc i) us

  -- The map has these rows, and nothing behind them.
  abbrev Serves : List (ℕ × Upload) → ℕ → List Upload → Type 0
  Serves m i [] = lookup (suc i) m ≡ none
  Serves m i (u ∷ us) = (lookup (suc i) m ≡ some u) × Serves m (suc i) us

  lookup-by_part_older :
      (k i : ℕ) (us : List Upload) (m : List (ℕ × Upload))
      → k ≤ i
      → PartsFrom i us
      → lookup k (by_part us m) ≡ lookup k m
  unfolding by_part
  lookup-by_part_older k i [] m h p = refl
  lookup-by_part_older k i (u ∷ us) m h p =
      lookup-by_part_older k (suc i) us _ (omega arith) p.1 ∙ kept (stays (lookup u.part_no m) u)
    where
      kept : (b : Bool) → lookup k (if b then m else put u.part_no u m) ≡ lookup k m
      kept true = refl
      kept false = lookup-put_ne u.part_no k u m (λ e. omega (arith, e, p.0.number))

  by_part_step :
      (i : ℕ) (u : Upload) (us : List Upload) (m : List (ℕ × Upload))
      → u.part_no ≡ suc i
      → lookup (suc i) m ≡ none
      → by_part (u ∷ us) m ≡ by_part us (put (suc i) u m)
  unfolding by_part stays
  by_part_step i u us m e l =
      ap (λ (n : ℕ). by_part us (if stays (lookup n m) u then m else put n u m)) e
      ∙ ap (λ (o : Option Upload). by_part us (if stays o u then m else put (suc i) u m)) l

  Serves-by_part :
      (i : ℕ) (us : List Upload) (m : List (ℕ × Upload))
      → PartsFrom i us
      → ((k : ℕ) → i < k → lookup k m ≡ none)
      → Serves (by_part us m) i us
  unfolding by_part
  Serves-by_part i [] m p free = free (suc i) (omega arith)
  Serves-by_part i (u ∷ us) m p free =
      subst (λ (n : List (ℕ × Upload)). Serves n i (u ∷ us))
        (sym (by_part_step i u us m p.0.number (free (suc i) (omega arith))))
        (
          lookup-by_part_older (suc i) (suc i) us (put (suc i) u m) (omega arith) p.1
              ∙ lookup-put (suc i) u m,
          Serves-by_part (suc i) us (put (suc i) u m) p.1
              (λ k h. lookup-put_ne (suc i) k u m (λ e. omega (arith, e)) ∙ free k (omega arith)),
        )

  expected_within :
      (i : ℕ)
      → i * part_size < size
      → expected_sync_part_size size part_size (suc i) ≡ min part_size (size - i * part_size)
  unfolding expected_sync_part_size
  expected_within i h =
      rw (leb-false {a = size} {b = i * part_size} h)
        (min_int64-min part_size (size - i * part_size))

  chunk_pos :
      (i : ℕ) → 0 < part_size → i * part_size < size → 0 < min part_size (size - i * part_size)
  chunk_pos i pos h = omega arith

  fits_part :
      (i : ℕ) (u : Upload)
      → 0 < part_size
      → IsPart i u
      → fits size part_size encrypted (suc i) u ≡ true
  unfolding fits
  fits_part i u pos p =
      rw
        (
          expected_within i p.within,
          p.kind,
          same_self encrypted,
          ltb-true {a = 0} {b = min part_size (size - i * part_size)} (chunk_pos i pos p.within),
          ==_true u.size (stored_size encrypted (min part_size (size - i * part_size))) p.stored,
        )
        refl

  resume_stop :
      (m : List (ℕ × Upload)) (fuel part_no : ℕ) (r : Resume)
      → lookup part_no m ≡ none
      → resume_loop size part_size encrypted m (suc fuel) part_no r ≡ r
  unfolding resume_loop
  resume_stop m fuel part_no r l = rw (l, resume_loop) refl

  resume_more :
      (m : List (ℕ × Upload)) (fuel part_no : ℕ) (r : Resume) (u : Upload)
      → lookup part_no m ≡ some u
      → fits size part_size encrypted part_no u ≡ true
      → resume_loop size part_size encrypted m (suc fuel) part_no r
        ≡ resume_loop size part_size encrypted m fuel (suc part_no) (record {
          completed_parts = suc r.completed_parts;
          done_bytes = r.done_bytes + expected_sync_part_size size part_size part_no;
        })
  unfolding resume_loop
  resume_more m fuel part_no r u l h = rw (l, resume_loop, h) refl

  resume_loop-parts :
      (m : List (ℕ × Upload)) (i fuel : ℕ) (us : List Upload)
      → 0 < part_size
      → Serves m i us
      → PartsFrom i us
      → length us < fuel
      → resume_loop size part_size encrypted m fuel
          (suc i)
          (record { completed_parts = i; done_bytes = reached size part_size i })
        ≡ record {
          completed_parts = i + length us;
          done_bytes = reached size part_size (i + length us);
        }
  resume_loop-parts m i zero us pos s p h = absurd (omega arith)
  resume_loop-parts m i (suc fuel) [] pos s p h =
      resume_stop m fuel (suc i)
        (record { completed_parts = i; done_bytes = reached size part_size i }) s
      ∙ ap (resume_at size part_size) (omega arith)
  resume_loop-parts m i (suc fuel) (u ∷ us) pos s p h =
      resume_more m fuel (suc i)
        (record { completed_parts = i; done_bytes = reached size part_size i }) u s.0
        (fits_part i u pos p.0)
      ∙ ap
          (λ (d : ℕ).
            resume_loop size part_size encrypted m fuel (suc (suc i))
              (record { completed_parts = suc i; done_bytes = d }))
          (ap (λ (e : ℕ). reached size part_size i + e) (expected_within i p.0.within)
            ∙ reached-suc size part_size i p.0.within)
      ∙ resume_loop-parts m (suc i) fuel us pos s.1 p.1 (omega arith)
      ∙ ap (resume_at size part_size) (omega arith)

  -- The rows of the first parts are counted, each once, and the bytes in them.
  pub sync_transfer_resume_state-parts :
      (us : List Upload)
      → 0 < part_size
      → PartsFrom 0 us
      → sync_transfer_resume_state size part_size encrypted us
        ≡ resume_at size part_size (length us)
  unfolding sync_transfer_resume_state lookup
  sync_transfer_resume_state-parts us pos p =
      ap
        (λ (d : ℕ).
          resume_loop size part_size encrypted (by_part us []) (suc (length us)) 1
            (record { completed_parts = 0; done_bytes = d }))
        (omega arith)
      ∙ resume_loop-parts (by_part us []) 0 (suc (length us)) us pos
          (Serves-by_part 0 us [] p (λ k h. refl)) p (omega arith)
      ∙ ap (resume_at size part_size) (omega arith)
