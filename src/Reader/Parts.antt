-- ===== src/Reader/Parts.antt =====
-- `Reader` of internal/reader/reader.go: the parts of a range, one reader after the other.
pub mod Reads
pub mod Whole
pub mod Encrypted
use teldrive_easy.Prelude.{
  ℕ, zero, suc, ◌+◌, ◌-◌, ◌≡◌, Bool, true, false, List, [], ◌∷◌, Option, none, some, ltb, leb,
  if◌then◌else◌, length, get_elem?,
}
use teldrive_easy.Reader.Ranges.{Range, calculate_part_byte_ranges}

-- `failed` is an error of a part's reader or of opening it.
pub data Error : Type 0 where
  eof position_out_of_range part_out_of_range panicked : Error
  failed : ℕ → Error

pub data Result {ℓ} (A : Type ℓ) : Type ℓ where
  ok : A → Result A
  err : Error → Result A

-- What `NewReader` reads of a part.
pub record Part : Type 0 where
  pub size : ℕ
  pub decrypted_size : ℕ

unfoldable pub part_size : Bool → Part → ℕ
part_size true p = p.decrypted_size
part_size false p = p.size

abbrev pub is_eof : Error → Bool
is_eof eof = true
is_eof _ = false

-- The readers of parts, plain or decrypting.
module _ {S : Type 0} (part_read : ℕ → S → List ℕ × Option Error × S)
    (open_part : Range → Result S) where
  pub record Reader : Type 0 where
    pub parts : List Part
    pub ranges : List Range
    pub pos : ℕ
    pub reader : S
    pub remaining : ℕ

  unfoldable pub get_part_reader : List Part → List Range → ℕ → Result S
  get_part_reader parts ranges pos = elim (get_elem? ranges pos) [
    | none ↦ err position_out_of_range
    | some r ↦ if ltb r.part_no (length parts) then open_part r else err part_out_of_range
  ]

  -- `initializeReader` puts the new reader in place.
  unfoldable pub placed : Result S → Reader → Option Error × Reader
  placed (ok s) r = (none, record r { reader = s })
  placed (err e) r = (some e, r)

  unfoldable pub move_to_next_part : Reader → Option Error × Reader
  move_to_next_part r =
      let next = record r { pos = r.pos + 1 } in
      if ltb (r.pos + 1) (length r.ranges)
      then placed (get_part_reader r.parts r.ranges (r.pos + 1)) next
      else (some eof, next)

  -- The end of `Read`, by what the part's reader reported.
  unfoldable pub after_read : List ℕ → Option Error → Reader → List ℕ × Option Error × Reader
  after_read bytes none r = (bytes, none, r)
  after_read bytes (some e) r =
      let moved = move_to_next_part r in
      if is_eof e
      then if ltb 0 r.remaining then (bytes, moved.0, moved.1) else (bytes, some e, r)
      else (bytes, some e, r)

  unfoldable pub read : ℕ → Reader → List ℕ × Option Error × Reader
  read k r =
      let got = part_read k r.reader in
      if leb r.remaining 0
      then ([], some eof, r)
      else after_read got.0 got.1
          (record r { reader = got.2; remaining = r.remaining - length got.0 })

  unfoldable pub initialized : List Part → List Range → ℕ → Result S → Result Reader
  initialized parts ranges remaining (err e) = err e
  initialized parts ranges remaining (ok s) =
      ok (record { parts = parts; ranges = ranges; pos = 0; reader = s; remaining = remaining })

  unfoldable pub with_ranges : List Part → (start end : ℕ) → Option (List Range) → Result Reader
  with_ranges parts start end none = err panicked
  with_ranges parts start end (some ranges) =
      initialized parts ranges (end - start + 1) (get_part_reader parts ranges 0)

  -- `NewReader`; the first part's size is every part's, and a file without parts panics.
  unfoldable pub new_reader : (encrypted : Bool) → List Part → (start end : ℕ) → Result Reader
  new_reader encrypted [] start end = err panicked
  new_reader encrypted (p ∷ parts) start end =
      with_ranges (p ∷ parts) start end
        (calculate_part_byte_ranges start end (part_size encrypted p))
