-- ===== src/Sync/ResumeEnds.antt =====
-- The loop of `syncTransferResumeState` ends.
use mathlib.Core.Option.{none-ne-some}
use teldrive_easy.Prelude.{
  ℕ, zero, suc, ◌+◌, ◌≤◌, ◌<◌, ◌≡◌, refl, sym, ap, ◌∙◌, Bool, true, false, List, [], ◌∷◌, none,
  some, leb, leb-true, leb-false, if◌then◌else◌, length, arith, inl, inr, Bool-cases, Option-cases,
  ℕ_discrete, ◌==◌,
}
use teldrive_easy.Events.Maps.{lookup, put, delete, lookup_there}
use teldrive_easy.Sync.Parts.{
  Resume, Upload, by_part, expected_sync_part_size, fits, resume_loop, stays,
  sync_transfer_resume_state,
}

-- The entries of a map whose key is at least `p`.
count_from : ℕ → List (ℕ × Upload) → ℕ
count_from p [] = 0
count_from p ((k, u) ∷ m) = (if leb p k then 1 else 0) + count_from p m

count_from_mono : (p : ℕ) (m : List (ℕ × Upload)) → count_from (suc p) m ≤ count_from p m
unfolding count_from
count_from_mono p [] = omega arith
count_from_mono p ((k, u) ∷ m) = ground (arith, count_from_mono p m)

count_from_less :
    (p : ℕ) (m : List (ℕ × Upload)) (u : Upload)
    → lookup p m ≡ some u
    → count_from (suc p) m < count_from p m
unfolding count_from lookup
count_from_less p [] u h = absurd (none-ne-some u h)
count_from_less p ((k, v) ∷ m) u h = elim (ℕ_discrete k p) [
  | yes e ↦
      rw
        (
          leb-true {a = p} {b = k} (omega (arith, e)),
          leb-false {a = suc p} {b = k} (omega (arith, e)),
        )
        (omega (arith, count_from_mono p m))
  | no n ↦
      let below = count_from_less p m u (sym (lookup_there k p v m n) ∙ h) in ground (arith, below)
]

count_from-length : (p : ℕ) (m : List (ℕ × Upload)) → count_from p m ≤ length m
unfolding count_from
count_from-length p [] = omega arith
count_from-length p ((k, u) ∷ m) = ground (arith, count_from-length p m)

length-delete : (k : ℕ) (m : List (ℕ × Upload)) → length (delete k m) ≤ length m
unfolding delete
length-delete k [] = omega arith
length-delete k ((j, u) ∷ m) = elim (Bool-cases (j == k)) [
  | inl e ↦ rw e (omega (arith, length-delete k m))
  | inr e ↦ rw e (omega (arith, length-delete k m))
]

length-by_part :
    (us : List Upload) (m : List (ℕ × Upload)) → length (by_part us m) ≤ length us + length m
unfolding by_part put
length-by_part [] m = omega arith
length-by_part (u ∷ us) m = elim (Bool-cases (stays (lookup u.part_no m) u)) [
  | inl e ↦ rw e (omega (arith, length-by_part us m))
  | inr e ↦ rw e (
      omega
        (arith, length-by_part us ((u.part_no, u) ∷ delete u.part_no m), length-delete u.part_no m))
]

module _ (total_size part_size : ℕ) (encrypted : Bool) (m : List (ℕ × Upload)) where
  abbrev loop : ℕ → ℕ → Resume → Resume
  loop = resume_loop total_size part_size encrypted m

  abbrev after_part : ℕ → Resume → Resume
  after_part p r = record {
    completed_parts = suc r.completed_parts;
    done_bytes = r.done_bytes + expected_sync_part_size total_size part_size p;
  }

  loop_missing : (fuel p : ℕ) (r : Resume) → lookup p m ≡ none → loop (suc fuel) p r ≡ r
  unfolding resume_loop
  loop_missing fuel p r l = rw (l, resume_loop) refl

  loop_misfit :
      (fuel p : ℕ) (r : Resume) (u : Upload)
      → lookup p m ≡ some u
      → fits total_size part_size encrypted p u ≡ false
      → loop (suc fuel) p r ≡ r
  unfolding resume_loop
  loop_misfit fuel p r u l h = rw (l, resume_loop, h) refl

  loop_fit :
      (fuel p : ℕ) (r : Resume) (u : Upload)
      → lookup p m ≡ some u
      → fits total_size part_size encrypted p u ≡ true
      → loop (suc fuel) p r ≡ loop fuel (suc p) (after_part p r)
  unfolding resume_loop
  loop_fit fuel p r u l h = rw (l, resume_loop, h) refl

  loop_more :
      (fuel extra p : ℕ) (r : Resume)
      → count_from p m < fuel
      → loop (fuel + extra) p r ≡ loop fuel p r
  loop_more zero extra p r h = absurd (omega arith)
  loop_more (suc fuel) extra p r h =
      ap (λ (n : ℕ). loop n p r) (omega arith) ∙ elim (Option-cases (lookup p m)) [
        | inl l ↦ loop_missing (fuel + extra) p r l ∙ sym (loop_missing fuel p r l)
        | inr (u, l) ↦ elim (Bool-cases (fits total_size part_size encrypted p u)) [
          | inl e ↦
              loop_fit (fuel + extra) p r u l e
              ∙ loop_more fuel extra (suc p) (after_part p r)
                  (omega (arith, count_from_less p m u l))
              ∙ sym (loop_fit fuel p r u l e)
          | inr e ↦ loop_misfit (fuel + extra) p r u l e ∙ sym (loop_misfit fuel p r u l e)
        ]
      ]

-- The loop that counts the parts that are there has no bound in the code, and ends: one turn for
-- each row of the upload and one more are enough, whatever the rows are, as more fuel changes
-- nothing.
pub resume_loop_ends :
    (total_size part_size : ℕ) (encrypted : Bool) (us : List Upload) (extra : ℕ)
    → resume_loop total_size part_size encrypted
        (by_part us [])
        (suc (length us) + extra)
        1
        (record { completed_parts = 0; done_bytes = 0 })
      ≡ sync_transfer_resume_state total_size part_size encrypted us
unfolding sync_transfer_resume_state
resume_loop_ends total_size part_size encrypted us extra =
    loop_more total_size part_size encrypted (by_part us []) (suc (length us)) extra 1
      (record { completed_parts = 0; done_bytes = 0 })
      (omega (arith, count_from-length 1 (by_part us []), length-by_part us []))
