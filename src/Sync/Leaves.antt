-- ===== src/Sync/Leaves.antt =====
-- What one run of a transfer leaves: the parts from the first one on.
use mathlib.Core.Bool.{false≢true}
use native.Mathlib.Nat.{div-lt_iff_lt-mul}
use teldrive_easy.Prelude.{
  ℕ, zero, suc, ◌+◌, ◌-◌, ◌*◌, ◌≤◌, ◌<◌, ◌≡◌, refl, sym, ap, ap₂, ◌∙◌, Bool, true, false, ◌&&◌,
  ◌||◌, List, [], ◌∷◌, ◌++◌, ltb, if◌then◌else◌, length, length-append, length-drop, take, drop,
  take-take, take_all, drop-drop, take-append-drop, drop_all, min, arith, subst, Bool-cases, inl,
  inr, dec_lt,
}
use teldrive_easy.Sync.Parts.{Upload, min_int64, stored_size}
use teldrive_easy.Sync.Resume.{IsPart, PartsFrom, min_int64-min, reached, reached-suc, resume_at}
use teldrive_easy.Sync.Transfer.{
  Outcome, Reply, Staged, after_stage, resumed, staged, total_parts, upload_failed, upload_parts,
}
use teldrive_easy.Sync.Staged.{IsRow, contents, stage_part-cases}

module _ (size part_size : ℕ) (encrypted : Bool) (source : List ℕ) (pos : 0 < part_size)
    (whole : length source ≡ size) where
  pub total_lt : (i : ℕ) → i < total_parts size part_size → i * part_size < size
  unfolding total_parts
  total_lt i h = elim (dec_lt (i * part_size) size) [
    | yes l ↦ l
    | no n ↦ absurd (
        omega (
          arith,
          (div-lt_iff_lt-mul {k = part_size} {x = size + part_size - 1} {y = suc i} pos).1
              (omega arith),
        ))
  ]

  pub total_le : (i : ℕ) → total_parts size part_size ≤ i → size ≤ i * part_size
  unfolding total_parts
  total_le i h = omega (
    arith,
    (div-lt_iff_lt-mul {k = part_size} {x = size + part_size - 1} {y = suc i} pos).0 (omega arith),
  )

  PartsFrom-append :
      (i : ℕ) (us : List Upload) (u : Upload)
      → PartsFrom size part_size encrypted source i us
      → IsPart size part_size encrypted source (i + length us) u
      → PartsFrom size part_size encrypted source i (us ++ u ∷ [])
  PartsFrom-append i [] u p q =
      (subst (λ (k : ℕ). IsPart size part_size encrypted source k u) (omega arith) q, tt)
  PartsFrom-append i (v ∷ us) u p q = (
    p.0,
    PartsFrom-append (suc i) us u p.1
        (subst (λ (k : ℕ). IsPart size part_size encrypted source k u) (omega arith) q),
  )

  chunk_bytes :
      (i : ℕ)
      → take (min part_size (size - i * part_size)) (drop (i * part_size) source)
        ≡ take part_size (drop (i * part_size) source)
  chunk_bytes i =
      sym (take-take part_size (size - i * part_size) (drop (i * part_size) source))
      ∙ ap (take part_size) (
          take_all (size - i * part_size) (drop (i * part_size) source)
            (omega (arith, length-drop (i * part_size) source, whole)))

  pub IsRow-IsPart :
      (i : ℕ) (u : Upload)
      → i * part_size < size
      → IsRow
          (suc i)
          encrypted
          (min_int64 part_size (size - reached size part_size i))
          (take
            (min_int64 part_size (size - reached size part_size i))
            (drop (reached size part_size i) source))
          u
      → IsPart size part_size encrypted source i u
  IsRow-IsPart i u h row = record {
    number = row.number;
    kind = row.kind;
    stored = row.stored ∙ ap (stored_size encrypted) chunk;
    bytes = row.bytes ∙ ap₂ (λ (k d : ℕ). take k (drop d source)) chunk at_start ∙ chunk_bytes i;
    within = h;
  }
    where
      at_start : min (i * part_size) size ≡ i * part_size
      at_start = omega arith

      chunk :
          min_int64 part_size (size - min (i * part_size) size)
          ≡ min part_size (size - i * part_size)
      chunk =
          min_int64-min part_size (size - min (i * part_size) size)
          ∙ ap (λ (d : ℕ). min part_size (size - d)) at_start

  abbrev pub Parts : List Upload → Type 0
  Parts us = PartsFrom size part_size encrypted source 0 us

  -- What a run from `rows` on leaves: parts in order, all of them where it succeeds.
  pub record Leaves (rows : List Upload) (o : Outcome) : Type 0 where
    pub parts : Parts o.1
    pub more : length rows ≤ length o.1
    pub all : o.0 ≡ true → total_parts size part_size ≤ length o.1

  abbrev pub chunk_at : ℕ → ℕ
  chunk_at i = min_int64 part_size (size - reached size part_size i)

  pub next_start :
      (i : ℕ)
      → i * part_size < size
      → reached size part_size i + chunk_at i ≡ reached size part_size (suc i)
  next_start i h =
      ap (λ (c : ℕ). reached size part_size i + c)
        (min_int64-min part_size (size - reached size part_size i))
      ∙ omega (arith, reached-suc size part_size i h)

  upload_parts-Leaves :
      (left i : ℕ) (rs : List Reply) (rows : List Upload)
      → Parts rows
      → length rows ≡ i
      → total_parts size part_size ≡ i + left
      → Leaves rows (
          upload_parts size part_size encrypted left i
            (reached size part_size i)
            (drop (reached size part_size i) source)
            rs
            rows)
  unfolding upload_parts after_stage
  upload_parts-Leaves zero i rs rows p e t = record {
    parts = p;
    more = omega arith;
    all = λ b. omega arith;
  }
  upload_parts-Leaves (suc left) i [] rows p e t = record {
    parts = p;
    more = omega arith;
    all = λ b. absurd (false≢true b);
  }
  upload_parts-Leaves (suc left) i (r ∷ rs) rows p e t =
      elim (stage_part-cases (suc i) encrypted (chunk_at i)
        (take (chunk_at i) (drop (reached size part_size i) source)) r) [
          | inl failed ↦
              subst (λ (st : Staged). Leaves rows (after_stage st r.reported rows next))
                (sym failed) stopped
          | inr (u, done, row) ↦
              subst (λ (st : Staged). Leaves rows (after_stage st r.reported rows next)) (sym done)
                (went_on (λ us q l. upload_parts-Leaves left (suc i) rs us q l (omega arith))
                  r.reported u
                  (PartsFrom-append 0 rows u p (
                    subst (λ (k : ℕ). IsPart size part_size encrypted source k u) (omega (arith, e))
                      (IsRow-IsPart i u h row))))
        ]
    where
      h : i * part_size < size
      h = total_lt i (omega arith)

      next : List Upload → Outcome
      next us =
          upload_parts size part_size encrypted left (suc i) (reached size part_size i + chunk_at i)
            (drop (chunk_at i) (drop (reached size part_size i) source)) rs us

      stopped : Leaves rows (after_stage upload_failed r.reported rows next)
      stopped = record { parts = p; more = omega arith; all = λ b. absurd (false≢true b) }

      longer : (u : Upload) → length (rows ++ u ∷ []) ≡ suc i
      longer u = omega (arith, length-append rows (u ∷ []), e)

      next-at :
          (us : List Upload)
          → next us
            ≡ upload_parts size part_size encrypted left
                (suc i)
                (reached size part_size (suc i))
                (drop (reached size part_size (suc i)) source)
                rs
                us
      next-at us =
          ap₂
            (λ (k : ℕ) (reader : List ℕ).
              upload_parts size part_size encrypted left (suc i) k reader rs us)
            (next_start i h)
            (drop-drop (chunk_at i) (reached size part_size i) source
              ∙ ap (λ (k : ℕ). drop k source) (next_start i h))

      went_on :
          ((us : List Upload)
            → Parts us
            → length us ≡ suc i
            → Leaves us (
                upload_parts size part_size encrypted left
                  (suc i)
                  (reached size part_size (suc i))
                  (drop (reached size part_size (suc i)) source)
                  rs
                  us))
          → (b : Bool) (u : Upload) → Parts (rows ++ u ∷ [])
          → Leaves rows (after_stage (staged u) b rows next)
      went_on rest false u q = record {
        parts = q;
        more = omega (arith, longer u, e);
        all = λ b. absurd (false≢true b);
      }
      went_on rest true u q =
          let done = rest (rows ++ u ∷ []) q (longer u) in
          subst (Leaves rows) (sym (next-at (rows ++ u ∷ []))) (record {
            parts = done.parts;
            more = omega (arith, done.more, longer u, e);
            all = done.all;
          })

  pub lt_total : (i : ℕ) → i * part_size < size → i < total_parts size part_size
  lt_total i h = elim (dec_lt i (total_parts size part_size)) [
    | yes l ↦ l
    | no n ↦ absurd (omega (arith, total_le i (omega arith)))
  ]

  pub parts_le :
      (i : ℕ) (us : List Upload)
      → PartsFrom size part_size encrypted source i us
      → i ≤ total_parts size part_size
      → i + length us ≤ total_parts size part_size
  parts_le i [] p h = omega arith
  parts_le i (u ∷ us) p h = omega (arith, parts_le (suc i) us p.1 (lt_total i p.0.within))

  pub resumed-Leaves :
      (reported : Bool) (rs : List Reply) (rows : List Upload)
      → Parts rows
      → Leaves rows (
          resumed size part_size encrypted source reported
            (resume_at size part_size (length rows))
            rs
            rows)
  unfolding resumed
  resumed-Leaves reported rs rows p =
      elim (Bool-cases (
        ltb 0 (reached size part_size (length rows))
        && ((ltb (length source) (reached size part_size (length rows)))
            || (if reported then false else true)))) [
              | inl e ↦
                  rw e (record { parts = p; more = omega arith; all = λ b. absurd (false≢true b) })
              | inr e ↦ rw e (
                  upload_parts-Leaves (total_parts size part_size - length rows) (length rows) rs
                    rows p refl (omega (arith, parts_le 0 rows p (omega arith))))
            ]

  -- The contents of the parts from the `i`-th on.
  pub contents-parts :
      (i : ℕ) (us : List Upload)
      → PartsFrom size part_size encrypted source i us
      → total_parts size part_size ≤ i + length us
      → contents us ≡ drop (i * part_size) source
  unfolding contents
  contents-parts i [] p t =
      sym (drop_all (i * part_size) source (omega (arith, total_le i (omega arith), whole)))
  contents-parts i (u ∷ us) p t =
      ap₂ ◌++◌ p.0.bytes (contents-parts (suc i) us p.1 (omega arith))
      ∙ ap (λ (xs : List ℕ). take part_size (drop (i * part_size) source) ++ xs)
          (ap (λ (k : ℕ). drop k source) (omega arith)
            ∙ sym (drop-drop part_size (i * part_size) source))
      ∙ take-append-drop part_size (drop (i * part_size) source)
