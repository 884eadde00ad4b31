-- ===== src/Reader/Ranges.antt =====
-- `calculatePartByteRanges` of internal/reader/reader.go. Offsets are non-negative.
use native.Mathlib.Nat.{lt-div-mul-add, div-mul-le_self, le-div_iff_mul-le}
use teldrive_easy.Prelude.{
  ℕ, zero, suc, ◌+◌, ◌-◌, ◌*◌, ◌/◌, ◌<◌, ◌≤◌, ◌≡◌, sym, ap, ap₂, ◌∙◌, min, List, [], ◌∷◌, ◌++◌,
  Option, none, some, ◌==◌, if◌then◌else◌, arith, ==_false,
}
use teldrive_easy.Prelude.Slices.{slice, slice-append, slice-slice, slice_empty, slice_from_min}

-- The bytes from `start` up to `end`, both included, of the part `part_no`.
pub record Range : Type 0 where
  pub start : ℕ
  pub end : ℕ
  pub part_no : ℕ

-- One round of the loop. `max(start-part*partSize, 0)` is the truncated difference.
unfoldable pub part_range : ℕ → ℕ → ℕ → ℕ → Range
part_range start end part_size part = record {
  start = start - part * part_size;
  end = min (part_size - 1) (end - part * part_size);
  part_no = part;
}

-- The loop from `part` on, for `rounds` parts.
unfoldable pub ranges_from : (rounds : ℕ) → ℕ → ℕ → ℕ → (part : ℕ) → List Range
unfolding part_range
ranges_from zero start end part_size part = []
ranges_from (suc rounds) start end part_size part =
    part_range start end part_size part ∷ ranges_from rounds start end part_size (part + 1)

-- `calculatePartByteRanges`; a part size of 0 is a division by zero, which panics.
unfoldable pub calculate_part_byte_ranges : ℕ → ℕ → ℕ → Option (List Range)
unfolding ranges_from
calculate_part_byte_ranges start end part_size =
    if part_size == 0
    then none
    else some (
        ranges_from (end / part_size + 1 - start / part_size) start end part_size
          (start / part_size))

-- The bytes of the part `p` of a file that is cut into parts of `part_size`.
abbrev pub part_bytes : List ℕ → ℕ → ℕ → List ℕ
part_bytes content part_size p = slice (p * part_size) (p * part_size + part_size) content

-- What the ranges give, one after the other, of parts with these bytes.
abbrev pub range_bytes : (ℕ → List ℕ) → Range → List ℕ
range_bytes parts r = slice r.start (r.end + 1) (parts r.part_no)

abbrev pub gather : (ℕ → List ℕ) → List Range → List ℕ
gather parts [] = []
gather parts (r ∷ rs) = range_bytes parts r ++ gather parts rs

-- Where in the file the range of the part `p` begins and ends.
range_slice :
    (content : List ℕ) (start end part_size p : ℕ)
    → 0 < part_size
    → p * part_size ≤ end
    → range_bytes (part_bytes content part_size) (part_range start end part_size p)
      ≡ slice
          (p * part_size + (start - p * part_size))
          (min (p * part_size + part_size) (end + 1))
          content
unfolding part_range
range_slice content start end part_size p h k =
    slice-slice (start - p * part_size) (min (part_size - 1) (end - p * part_size) + 1)
      (p * part_size) (p * part_size + part_size) content (omega arith)
    ∙ ap (λ m. slice (p * part_size + (start - p * part_size)) m content) (omega arith)

gather-ranges_from :
    (rounds : ℕ) (content : List ℕ) (start end part_size p : ℕ)
    → 0 < part_size
    → start ≤ end
    → start < p * part_size + part_size
    → end < (p + rounds) * part_size
    → (p + rounds) * part_size < end + 1 + part_size
    → gather (part_bytes content part_size) (ranges_from rounds start end part_size p)
      ≡ slice (p * part_size + (start - p * part_size)) (end + 1) content
unfolding ranges_from
gather-ranges_from zero content start end part_size p h le s e m =
    sym (slice_empty _ _ content (omega arith))
gather-ranges_from (suc rounds) content start end part_size p h le s e m =
    let a = p * part_size + (start - p * part_size) in
    let b = p * part_size + part_size in
    ap₂ ◌++◌ (range_slice content start end part_size p h (omega arith)) (
      gather-ranges_from rounds content start end part_size (p + 1) h le (omega arith) (omega arith)
        (omega arith)
      ∙ ap (λ x. slice x (end + 1) content) (omega arith)
      ∙ slice_from_min b (end + 1) content)
    ∙ slice-append a (min b (end + 1)) (end + 1) content (omega arith) (omega arith)

parts_upto : (a b : ℕ) → a ≤ b → a + (b + 1 - a) ≡ b + 1
parts_upto a b h = omega arith

-- For a part size that is not 0 and a start not behind the end, the ranges of the parts, one after
-- the other, give exactly the bytes of the file from the start up to the end.
pub gather-calculate_part_byte_ranges :
    (content : List ℕ) (start end part_size : ℕ)
    → 0 < part_size
    → start ≤ end
    → (rs : List Range) × (calculate_part_byte_ranges start end part_size ≡ some rs)
      × (gather (part_bytes content part_size) rs ≡ slice start (end + 1) content)
unfolding calculate_part_byte_ranges
gather-calculate_part_byte_ranges content start end part_size h le =
    let count = end / part_size + 1 - start / part_size in
    let from = lt-div-mul-add {a = start} h in
    let to = lt-div-mul-add {a = end} h in
    let all : (start / part_size + count) * part_size ≡ end / part_size * part_size + part_size =
      omega (
        arith,
        ap (λ (t : ℕ). t * part_size)
            (parts_upto (start / part_size) (end / part_size)
              ((le-div_iff_mul-le h).1 (omega (arith, div-mul-le_self start part_size)))),
      ) in
    (
      ranges_from count start end part_size (start / part_size),
      rw (==_false part_size 0 (λ e. absurd (omega arith))),
      gather-ranges_from count content start end part_size (start / part_size) h le from
            (omega (arith, all, to)) (omega (arith, all, div-mul-le_self end part_size))
          ∙ ap (λ x. slice x (end + 1) content) (omega (arith, div-mul-le_self start part_size)),
    )
