-- ===== src/Reader/Parts/Encrypted.antt =====
-- `getPartReader` of internal/reader/reader.go for an encrypted file: the reader of a part is the
-- decrypter of internal/crypt/cipher.go, opened at the range.
use teldrive_easy.Prelude.{
  ℕ, ◌+◌, ◌-◌, ◌*◌, ◌^◌, ◌<◌, ◌≤◌, ◌≡◌, ap, subst, List, ◌∷◌, Option, none, some, true, inl, inr,
  length, take, drop, arith, length-take, length-drop, take-take, take_all, min, zero, suc, [],
  refl, sym, ◌∙◌, ltb, ltb-true, ◌&&◌, false, if◌then◌else◌, Bool-cases, dec_lt,
}
use native.Mathlib.Nat.{mul-le-mul_right}
use teldrive_easy.Prelude.Int.{ℤ, pos, negsuc, sub_ℕ}
use teldrive_easy.Prelude.Slices.{slice}
use teldrive_easy.Stream.{Serves, AllPositive, read_all}
use teldrive_easy.Crypt.Errors as Crypt
use teldrive_easy.Crypt.Nonce.{Nonce, IsBytes, file_nonce_size}
use teldrive_easy.Crypt.Source.{Source}
use teldrive_easy.Crypt.Box.{SecretBox, encrypted}
use teldrive_easy.Crypt.Decrypter.{Decrypter, new_decrypter_seek}
use teldrive_easy.Crypt.Decrypter as Decrypts
use teldrive_easy.Crypt.Decrypter.Reads.{cap, Holds, read-Serves}
use teldrive_easy.Crypt.Decrypter.Agree.{new_decrypter_seek-agree}
use teldrive_easy.Crypt.Decrypter.Header.{OpensFile}
use teldrive_easy.Crypt.Decrypter.Open.{new_decrypter_seek-Holds}
use teldrive_easy.Reader.Ranges.{Range, range_bytes, part_bytes}
use teldrive_easy.Reader.Parts.{
  Error, eof, failed, Result, ok, err, Part, Reader, new_reader, read, part_size,
}
use teldrive_easy.Reader.Parts.Whole.{read_all-new_reader, rounds_for}

-- `r.parts[PartNo].Size`; `get_part_reader` asks only for parts that are there.
unfoldable pub size_at : List Part → ℕ → ℕ
size_at [] p = 0
size_at (first ∷ parts) zero = first.size
size_at (first ∷ parts) (suc p) = size_at parts p

-- The function that the decrypter opens ranges with: the stream ends with the part, or where the
-- limit does; without a limit the end stays 0.
unfoldable pub open_range_seek :
    (size : ℕ) → (ℕ → ℤ → Crypt.Result Source) → ℕ → ℤ → Crypt.Result Source
open_range_seek size stream offset (negsuc l) = stream offset (pos 0)
open_range_seek size stream offset (pos l) = stream offset (sub_ℕ (min size (offset + l)) 1)

-- A stream that gives the bytes of any range of what is stored, its end included, and then the end
-- of the file.
abbrev pub StreamsPart : (ℕ → ℤ → Crypt.Result Source) → List ℕ → Type 0
StreamsPart stream stored =
    (start end : ℕ)
    → start ≤ end
    → end < length stored
    → (s : Source) × (stream start (pos end) ≡ Crypt.ok s)
      × (s.bytes ≡ slice start (end + 1) stored)
      × (s.tail ≡ Crypt.eof)

open_range_seek-bytes :
    (size : ℕ) (stream : ℕ → ℤ → Crypt.Result Source) (stored : List ℕ)
    → size ≡ length stored
    → StreamsPart stream stored
    → (offset l : ℕ) → offset < length stored
    → 0 < l
    → (s : Source) × (open_range_seek size stream offset (pos l) ≡ Crypt.ok s)
      × (s.bytes ≡ take l (drop offset stored))
      × (s.tail ≡ Crypt.eof)
unfolding open_range_seek
open_range_seek-bytes size stream stored whole streamed offset l h k =
    let last = min size (offset + l) - 1 in
    let (s, e, got, tail) = streamed offset last (omega arith) (omega arith) in
    (
      s,
      ap (stream offset) (ground arith) ∙ e,
      got
          ∙ (ap (λ m. take m (drop offset stored)) (omega arith)
              ∙ sym (take-take l (length stored - offset) (drop offset stored))
              ∙ ap (take l) (
                  take_all (length stored - offset) (drop offset stored)
                    (omega (arith, length-drop offset stored)))),
      tail,
    )

-- The function, with the bytes of the file where it is not asked for.
abbrev exact : List ℕ → ℕ → ℤ → Source
exact file offset limit = record {
  bytes = cap limit (drop offset file);
  tail = Crypt.eof;
  eager = false;
  schedule = [];
}

completed : (ℕ → ℤ → Crypt.Result Source) → List ℕ → ℕ → ℤ → Crypt.Result Source
completed opens file offset (negsuc l) = Crypt.ok (exact file offset (negsuc l))
completed opens file offset (pos l) =
    if ltb offset (length file) && ltb 0 l
    then opens offset (pos l)
    else Crypt.ok (exact file offset (pos l))

completed-inside :
    (opens : ℕ → ℤ → Crypt.Result Source) (file : List ℕ) (offset l : ℕ)
    → offset < length file
    → 0 < l
    → completed opens file offset (pos l) ≡ opens offset (pos l)
unfolding completed
completed-inside opens file offset l h k = rw (ltb-true h, ltb-true k) refl

completed-OpensFile :
    (opens : ℕ → ℤ → Crypt.Result Source) (file : List ℕ)
    → ((offset l : ℕ)
        → offset < length file
        → 0 < l
        → (s : Source) × (opens offset (pos l) ≡ Crypt.ok s)
          × (s.bytes ≡ take l (drop offset file))
          × (s.tail ≡ Crypt.eof))
    → OpensFile (completed opens file) file
unfolding completed
completed-OpensFile opens file h offset (negsuc l) =
    (exact file offset (negsuc l), refl, refl, refl)
completed-OpensFile opens file h offset (pos l) =
    elim (Bool-cases (ltb offset (length file) && ltb 0 l)) [
      | inl e ↦
          let (s, opened, got, tail) = h offset l (ground (arith, e)) (ground (arith, e)) in
          (s, rw e opened, got, tail)
      | inr e ↦ (exact file offset (pos l), rw e refl, refl, refl)
    ]

part_there :
    (p count size : ℕ) (plain : List ℕ)
    → 0 < length (part_bytes plain size p)
    → length plain ≤ count * size
    → p < count
part_there p count size plain h cut = elim (dec_lt p count) [
  | yes l ↦ l
  | no n ↦
      let far : count * size ≤ p * size = mul-le-mul_right size (omega arith) in
      absurd (
        omega (
          arith,
          h,
          length-take (p * size + size - p * size) (drop (p * size) plain),
          length-drop (p * size) plain,
          far,
        ))
]

-- An error of the decrypter, as the reader passes it on; `code` tells the others apart.
module _ (code : Crypt.Error → ℕ) where
  unfoldable pub passed_on : Crypt.Error → Error
  passed_on Crypt.eof = eof
  passed_on e = failed (code e)

  unfoldable pub error_of : Option Crypt.Error → Option Error
  error_of none = none
  error_of (some e) = some (passed_on e)

  unfoldable pub result_of : Crypt.Result Decrypter → Result Decrypter
  result_of (Crypt.ok fh) = ok fh
  result_of (Crypt.err e) = err (passed_on e)

  module _ (box : SecretBox) where
    unfoldable pub part_read : ℕ → Decrypter → List ℕ × Option Error × Decrypter
    part_read k fh = let got = Decrypts.read box k fh in (got.0, error_of got.1, got.2)

    -- `DecryptDataSeek` from the start of the range on, for its length. `streams` is
    -- `newTGMultiReader` on a part.
    unfoldable pub open_part :
        List Part → (ℕ → ℕ → ℤ → Crypt.Result Source) → (ℕ → List ℕ) → Range → Result Decrypter
    open_part parts streams keys r = result_of (
        new_decrypter_seek box (open_range_seek (size_at parts r.part_no) (streams r.part_no))
          (keys r.part_no) r.start (pos (r.end - r.start + 1)))

    part_read-Serves :
        (k : ℕ) (pending : List ℕ) (fh : Decrypter)
        → 0 < k
        → Holds box pending fh
        → Serves part_read (Holds box) eof pending (part_read k fh)
    unfolding part_read error_of passed_on
    part_read-Serves k pending fh h holds =
        let v = read-Serves box k pending fh h holds in
        record {
          rest = v.rest;
          split = v.split;
          outcome = elim v.outcome [
            | inl (e, holds', some_byte) ↦ inl (ap error_of e, holds', some_byte)
            | inr (e, over) ↦ inr (ap error_of e, over)
          ];
        }

    open_part-Holds :
        (parts : List Part) (streams : ℕ → ℕ → ℤ → Crypt.Result Source) (keys : ℕ → List ℕ)
        (nonces : ℕ → Nonce) (plain : ℕ → List ℕ) (r : Range)
        → size_at parts r.part_no
          ≡ length (encrypted box (keys r.part_no) (nonces r.part_no) (plain r.part_no))
        → StreamsPart
            (streams r.part_no)
            (encrypted box (keys r.part_no) (nonces r.part_no) (plain r.part_no))
        → IsBytes (nonces r.part_no)
        → length (nonces r.part_no) ≡ file_nonce_size
        → length (plain r.part_no) < 2 ^ 64
        → r.start ≤ r.end
        → r.end < length (plain r.part_no)
        → (fh : Decrypter) × (open_part parts streams keys r ≡ ok fh)
          × Holds box (range_bytes plain r) fh
    unfolding open_part result_of
    open_part-Holds parts streams keys nonces plain r whole streamed bytes size small le inside =
        let key = keys r.part_no in
        let nonce = nonces r.part_no in
        let stored = encrypted box key nonce (plain r.part_no) in
        let opens = open_range_seek (size_at parts r.part_no) (streams r.part_no) in
        let same =
          new_decrypter_seek-agree box key nonce (plain r.part_no) opens (completed opens stored)
            size (λ o l h k. sym (completed-inside opens stored o l h k)) r.start
            (r.end - r.start + 1) (omega arith) (omega arith) in
        let (fh, e, holds) =
          new_decrypter_seek-Holds box key nonce (plain r.part_no) (completed opens stored)
            (completed-OpensFile opens stored (λ o l h k.
              open_range_seek-bytes (size_at parts r.part_no) (streams r.part_no) stored whole
                streamed o l h k))
            bytes size r.start (pos (r.end - r.start + 1)) (λ _. omega arith) small in
        (
          fh,
          ap result_of (same ∙ e),
          subst (λ m. Holds box (take m (drop r.start (plain r.part_no))) fh) (omega arith) holds,
        )

-- An encrypted file, from the request to the plaintext. Let the plaintext be cut into parts of the
-- first part's decrypted size, below 2^64, let each part be stored encrypted under a key and a nonce
-- of 24 bytes of its own, with the size that its row says, and let the stream of each part give the
-- bytes of any range inside what is stored. Then a reader of any range inside the plaintext is made,
-- and reading it in reads of any positive sizes, as many as the range has bytes and parts, gives
-- exactly that range of the plaintext, and then the end of the file.
pub read_all-encrypted :
    (code : Crypt.Error → ℕ) (box : SecretBox) (streams : ℕ → ℕ → ℤ → Crypt.Result Source)
    (keys : ℕ → List ℕ) (nonces : ℕ → Nonce) (first : Part) (parts : List Part) (plain : List ℕ)
    (start end : ℕ) (ks : List ℕ)
    → ((p : ℕ)
        → p < length (first ∷ parts)
        → size_at (first ∷ parts) p
          ≡ length (encrypted box (keys p) (nonces p) (part_bytes plain first.decrypted_size p)))
    → ((p : ℕ)
        → StreamsPart
            (streams p)
            (encrypted box (keys p) (nonces p) (part_bytes plain first.decrypted_size p)))
    → ((p : ℕ) → IsBytes (nonces p))
    → ((p : ℕ) → length (nonces p) ≡ file_nonce_size)
    → 0 < first.decrypted_size
    → first.decrypted_size < 2 ^ 64
    → start ≤ end
    → end < length plain
    → length plain ≤ length (first ∷ parts) * first.decrypted_size
    → AllPositive ks
    → end - start + 1 + rounds_for start end first.decrypted_size ≤ length ks
    → let reads = part_read code box in
      let opens = open_part code box (first ∷ parts) streams keys in
      (r : Reader reads opens) × (new_reader reads opens true (first ∷ parts) start end ≡ ok r)
      × ((read_all (read reads opens) ks r).0 ≡ slice start (end + 1) plain)
      × ((read_all (read reads opens) ks r).1 ≡ some eof)
unfolding part_size
read_all-encrypted code box streams keys nonces first parts plain start end ks whole stored bytes
      sizes some_size small le inside cut positive enough =
    let size = first.decrypted_size in
    read_all-new_reader (part_read code box) (open_part code box (first ∷ parts) streams keys)
      (Holds box) true first parts plain start end ks (part_read-Serves code box)
      (λ r le' inside'.
        open_part-Holds code box (first ∷ parts) streams keys nonces (part_bytes plain size) r
          (whole r.part_no
            (part_there r.part_no (length (first ∷ parts)) size plain (omega arith) cut))
          (stored r.part_no) (bytes r.part_no) (sizes r.part_no)
          (omega (
            arith,
            length-take (r.part_no * size + size - r.part_no * size)
                (drop (r.part_no * size) plain),
          ))
          le' inside')
      some_size le inside cut positive enough
