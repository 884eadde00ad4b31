-- ===== src/Reader/Parts/Whole.antt =====
-- A range of a file, read over its parts from the first byte to the last.
use native.Mathlib.Nat.{lt-div-mul-add, div-mul-le_self, le-div_iff_mul-le, div-lt_iff_lt-mul}
use mathlib.Core.Option.{some-injective}
use teldrive_easy.Prelude.{
  ℕ, zero, suc, ◌+◌, ◌-◌, ◌*◌, ◌/◌, ◌<◌, ◌≤◌, ◌≡◌, refl, sym, ap, ◌∙◌, Bool, List, [], ◌∷◌, Option,
  some, length, min, drop, length-take, length-drop, get_elem?, arith, length-append, ==_false,
}
use teldrive_easy.Prelude.Slices.{slice, length-slice}
use teldrive_easy.Stream.{Serves, AllPositive, read_all}
use teldrive_easy.Reader.Ranges.{
  Range, gather, range_bytes, part_bytes, part_range, ranges_from, calculate_part_byte_ranges,
  gather-calculate_part_byte_ranges,
}
use teldrive_easy.Reader.Parts.{
  Error, eof, Result, ok, Part, Reader, new_reader, with_ranges, initialized, part_size, read,
}
use teldrive_easy.Reader.Parts.Reads.{Opens, collects, part_there}

abbrev pub rounds_for : (start end size : ℕ) → ℕ
rounds_for start end size = end / size + 1 - start / size

ranges_are :
    (start end size : ℕ)
    → 0 < size
    → calculate_part_byte_ranges start end size
      ≡ some (ranges_from (rounds_for start end size) start end size (start / size))
unfolding calculate_part_byte_ranges
ranges_are start end size h = rw (==_false size 0 (λ e. absurd (omega arith))) refl

length-ranges_from :
    (rounds start end size p : ℕ) → length (ranges_from rounds start end size p) ≡ rounds
unfolding ranges_from
length-ranges_from zero start end size p = refl
length-ranges_from (suc rounds) start end size p =
    ap suc (length-ranges_from rounds start end size (p + 1))

module _ {S : Type 0} (part_read : ℕ → S → List ℕ × Option Error × S) (open_part : Range → Result S)
    (Ready : List ℕ → S → Type 0)
    (serves : (k : ℕ) (pending : List ℕ) (s : S)
      → 0 < k
      → Ready pending s
      → Serves part_read Ready eof pending (part_read k s))
    (file : List ℕ) (size : ℕ)
    (opens : (r : Range)
      → r.start ≤ r.end
      → r.end < length (part_bytes file size r.part_no)
      → (s : S) × (open_part r ≡ ok s) × Ready (range_bytes (part_bytes file size) r) s) where
  abbrev content : ℕ → List ℕ
  content = part_bytes file size

  length-part_bytes : (p : ℕ) → length (part_bytes file size p) ≡ min size (length file - p * size)
  length-part_bytes p = omega (
    arith,
    length-take (p * size + size - p * size) (drop (p * size) file),
    length-drop (p * size) file,
  )

  ranges_from-Opens :
      (parts : List Part) (rounds start end p : ℕ)
      → p + rounds ≤ length parts
      → 0 < size
      → start ≤ end
      → end < length file
      → start < p * size + size
      → (p + rounds) * size < end + 1 + size
      → Opens part_read open_part Ready serves content parts (ranges_from rounds start end size p)
  unfolding ranges_from part_range
  ranges_from-Opens parts zero start end p h some_size le inside from to = omega arith
  ranges_from-Opens parts (suc rounds) start end p h some_size le inside from to = (
    omega arith,
    opens _ (omega arith) (omega (arith, length-part_bytes p)),
    ranges_from-Opens parts rounds start end (p + 1) (omega arith) some_size le inside (omega arith)
        (omega arith),
  )

  -- Reading the first range and those behind it.
  reads_ranges :
      (parts : List Part) (rs : List Range) (start end : ℕ) (ks : List ℕ)
      → Opens part_read open_part Ready serves content parts rs
      → 0 < length rs
      → length (gather content rs) ≡ end - start + 1
      → AllPositive ks
      → end - start + 1 + length rs ≤ length ks
      → (r : Reader part_read open_part) × (with_ranges part_read open_part parts start end
            (some rs)
          ≡ ok r)
        × ((read_all (read part_read open_part) ks r).0 ≡ gather content rs)
        × ((read_all (read part_read open_part) ks r).1 ≡ some eof)
  unfolding with_ranges initialized
  reads_ranges parts [] start end ks ops some_range size pos enough = absurd (omega arith)
  reads_ranges parts (first ∷ later) start end ks (here, (s, opened, ready), ops) some_range size
        pos enough =
      let r : Reader part_read open_part = record {
        parts = parts;
        ranges = first ∷ later;
        pos = 0;
        reader = s;
        remaining = end - start + 1;
      } in
      let (bytes, last) =
        collects part_read open_part Ready serves content ks _ (gather content (first ∷ later)) r
          pos (omega (arith, size))
          (record {
            pending = range_bytes content first;
            later = later;
            at = record {
              ready = ready;
              behind = λ i. ap (get_elem? (first ∷ later)) (one_more i);
              count = omega arith;
              opens = ops;
              left =
                  omega
                    (arith, size, length-append (range_bytes content first) (gather content later));
            };
            all = refl;
            bound = refl;
          }) in
      (
        r,
        ap (initialized part_read open_part parts (first ∷ later) (end - start + 1)) (
            part_there part_read open_part Ready serves content parts (first ∷ later) 0 first s refl
              here opened),
        bytes,
        last,
      )
    where
      one_more : (i : ℕ) → 0 + 1 + i ≡ suc i
      one_more i = omega arith

  last_round :
      (start end : ℕ)
      → 0 < size
      → start ≤ end
      → (start / size + rounds_for start end size) * size < end + 1 + size
  last_round start end h le =
      let from : start / size ≤ end / size =
        (le-div_iff_mul-le h).1 (omega (arith, div-mul-le_self start size)) in
      let upto : start / size + rounds_for start end size ≡ end / size + 1 = omega arith in
      omega (arith, ap (λ (t : ℕ). t * size) upto, div-mul-le_self end size)

  -- The whole number of parts that a range inside the file touches.
  rounds_inside :
      (start end size count : ℕ)
      → 0 < size
      → start ≤ end
      → end < count * size
      → (start / size + rounds_for start end size ≤ count) × (0 < rounds_for start end size)
  rounds_inside start end size count h le inside =
      let from : start / size ≤ end / size =
        (le-div_iff_mul-le h).1 (omega (arith, div-mul-le_self start size)) in
      let to : end / size < count = (div-lt_iff_lt-mul h).1 inside in (omega arith, omega arith)

-- Let the file be cut into parts of the first part's size (the decrypted one if it is encrypted),
-- and let the range lie inside the file. Let opening the range of any part give a reader that hands
-- out the bytes of that range of that part, some at each read, and then the end of the file. Then a
-- reader of the range is made, and reading it in reads of any positive sizes, as many as the range
-- has bytes and parts, gives exactly the range, over all the parts that it touches, and then the
-- end of the file.
pub read_all-new_reader :
    {S : Type 0} (part_read : ℕ → S → List ℕ × Option Error × S) (open_part : Range → Result S)
    (Ready : List ℕ → S → Type 0) (encrypted : Bool) (first : Part) (parts : List Part)
    (file : List ℕ) (start end : ℕ) (ks : List ℕ)
    → ((k : ℕ) (pending : List ℕ) (s : S)
        → 0 < k
        → Ready pending s
        → Serves part_read Ready eof pending (part_read k s))
    → ((r : Range)
        → r.start ≤ r.end
        → r.end < length (part_bytes file (part_size encrypted first) r.part_no)
        → (s : S) × (open_part r ≡ ok s)
          × Ready (range_bytes (part_bytes file (part_size encrypted first)) r) s)
    → 0 < part_size encrypted first
    → start ≤ end
    → end < length file
    → length file ≤ length (first ∷ parts) * part_size encrypted first
    → AllPositive ks
    → end - start + 1 + rounds_for start end (part_size encrypted first) ≤ length ks
    → (r : Reader part_read open_part) × (new_reader part_read open_part encrypted
          (first ∷ parts)
          start
          end
        ≡ ok r)
      × ((read_all (read part_read open_part) ks r).0 ≡ slice start (end + 1) file)
      × ((read_all (read part_read open_part) ks r).1 ≡ some eof)
unfolding new_reader
read_all-new_reader part_read open_part Ready encrypted first parts file start end ks serves opens
      some_size le inside cut pos enough =
    let size = part_size encrypted first in
    let rounds = rounds_for start end size in
    let rs = ranges_from rounds start end size (start / size) in
    let made = ranges_are start end size some_size in
    let (rs', made', whole) = gather-calculate_part_byte_ranges file start end size some_size le in
    let same : rs' ≡ rs = some-injective rs' rs (sym made' ∙ made) in
    let all : gather (part_bytes file size) rs ≡ slice start (end + 1) file =
      ap (gather (part_bytes file size)) (sym same) ∙ whole in
    let (fits, some_round) =
      rounds_inside part_read open_part Ready serves file size opens start end size
        (length (first ∷ parts)) some_size le (omega arith) in
    let count = length-ranges_from rounds start end size (start / size) in
    let (r, opened, bytes, last) =
      reads_ranges part_read open_part Ready serves file size opens (first ∷ parts) rs start end ks
        (ranges_from-Opens part_read open_part Ready serves file size opens (first ∷ parts) rounds
          start end (start / size) fits some_size le inside (lt-div-mul-add some_size)
          (last_round part_read open_part Ready serves file size opens start end some_size le))
        (omega (arith, count))
        (ap length all
          ∙ length-slice start (end + 1) file (omega arith) (omega arith)
          ∙ omega arith)
        pos (omega (arith, count)) in
    (
      r,
      ap (with_ranges part_read open_part (first ∷ parts) start end) made ∙ opened,
      bytes ∙ all,
      last,
    )
