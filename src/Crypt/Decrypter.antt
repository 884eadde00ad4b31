-- ===== src/Crypt/Decrypter.antt =====
-- The decrypting reader of internal/crypt/cipher.go, with its seeks.
pub mod Agree
pub mod Reads
pub mod Header
pub mod Seek
pub mod Open
use teldrive_easy.Prelude.{
  ℕ, ◌+◌, ◌-◌, Bool, true, false, ◌&&◌, List, [], ◌∷◌, ◌++◌, Option, none, some, length, take, drop,
  replicate, ltb, leb, if◌then◌else◌, ◌==◌,
}
use teldrive_easy.Prelude.Int.{ℤ, pos, negsuc, ◌+ℤ◌}
use teldrive_easy.Crypt.Errors.{
  Error, Result, ok, err, eof, file_too_short, bad_header, bad_magic, file_closed, bad_seek,
  misused, short_nonce, failed, reopen,
}
use teldrive_easy.Crypt.Nonce.{Nonce, increment, add}
use teldrive_easy.Crypt.Size.{
  file_magic_size, file_header_size, block_header_size, block_size, calculate_underlying,
}
use teldrive_easy.Crypt.Source.{Source, read_fill}
use teldrive_easy.Crypt.Box.{SecretBox, file_magic_bytes}

-- As for the encrypter; `limit` counts the bytes that may still be read, and is negative for no
-- limit. `seekable` tells whether `open` was set.
pub record Decrypter : Type 0 where
  pub rc : Source
  pub key : List ℕ
  pub nonce : Nonce
  pub initial_nonce : Nonce
  pub buf : List ℕ
  pub buf_index : ℕ
  pub buf_size : ℕ
  pub failure : Option Error
  pub limit : ℤ
  pub seekable : Bool

abbrev pub is_eof : Error → Bool
is_eof eof = true
is_eof _ = false

-- `err != nil && err != io.EOF`, with the error.
unfoldable pub hard_error : Option Error → Option Error
hard_error none = none
hard_error (some e) = if is_eof e then none else some e

unfoldable pub bytes_equal : List ℕ → List ℕ → Bool
bytes_equal [] [] = true
bytes_equal [] (_ ∷ _) = false
bytes_equal (_ ∷ _) [] = false
bytes_equal (a ∷ as') (b ∷ bs) = a == b && bytes_equal as' bs

-- The second half of `newDecrypter`: the magic is checked and the nonce taken.
unfoldable pub check_magic : List ℕ → List ℕ → Source → Result Decrypter
check_magic key head rc =
    if bytes_equal (take file_magic_size head) file_magic_bytes
    then ok (record {
      rc = rc;
      key = key;
      nonce = drop file_magic_size head;
      initial_nonce = drop file_magic_size head;
      buf = [];
      buf_index = 0;
      buf_size = 0;
      failure = none;
      limit = negsuc 0;
      seekable = false;
    })
    else err bad_magic

-- A short header is reported only behind the end of the file; any other error goes through.
unfoldable pub check_header : Option Error → List ℕ → Result Decrypter → Result Decrypter
check_header none head checked = checked
check_header (some x) head checked =
    if is_eof x
    then if ltb (length head) file_header_size then err file_too_short else checked
    else err x

-- `newDecrypter`.
unfoldable pub new_decrypter : List ℕ → Source → Result Decrypter
new_decrypter key source =
    let (head, e, rc) = read_fill file_header_size source in
    check_header e head (check_magic key head rc)

-- `finish`: the first error stays.
unfoldable pub finish : Error → Decrypter → Error × Decrypter
finish e fh = elim fh.failure [
  | some first ↦ (first, fh)
  | none ↦ (e, record fh { failure = some e; buf = [] })
]

-- How many of `m` bytes the limit lets through, what is left of it, and whether it is used up.
unfoldable pub to_copy : ℤ → ℕ → ℕ
to_copy (pos l) m = if ltb l m then l else m
to_copy (negsuc _) m = m

unfoldable pub spend : ℤ → ℕ → ℤ
spend (pos l) n = pos (l - n)
spend (negsuc l) n = negsuc l

unfoldable pub is_spent : ℤ → Bool
is_spent (pos l) = l == 0
is_spent (negsuc _) = false

-- The second half of `Read`.
unfoldable pub copy_out : ℕ → Decrypter → List ℕ × Option Error × Decrypter
unfolding to_copy spend is_spent finish
copy_out k fh =
    let bytes =
      take k (take (to_copy fh.limit (fh.buf_size - fh.buf_index)) (drop fh.buf_index fh.buf)) in
    let fh' = record fh {
      buf_index = fh.buf_index + length bytes;
      limit = spend fh.limit (length bytes);
    } in
    if is_spent fh'.limit
    then (bytes, some (finish eof fh').0, (finish eof fh').1)
    else (bytes, none, fh')

-- `int64(fileHeaderSize)+underlyingLimit`.
unfoldable pub header_and : ℤ → ℤ
unfolding ◌+ℤ◌
header_and u = pos file_header_size +ℤ u

-- `Close`, with what closing the reader below returns. A second call changes nothing.
unfoldable pub close : (Source → Option Error) → Decrypter → Option Error × Decrypter
unfolding finish
close close_rc fh =
    let shut : Option Error × Decrypter =
      (close_rc fh.rc, record ((finish eof fh).1) { failure = some file_closed }) in
    elim fh.failure [ some file_closed ↦ (some file_closed, fh) | _ ↦ shut ]

module _ (box : SecretBox) where
  open box use {open_box}

  -- The block that was read, opened; a block that does not open becomes zeros, unless the reader
  -- failed.
  unfoldable pub unseal : List ℕ × Option Error × Source → Decrypter → Option Error × Decrypter
  unfolding hard_error
  unseal (bytes, e, rc) fh =
      let opened = λ (buf : List ℕ). record fh {
        rc = rc;
        nonce = increment fh.nonce;
        buf = buf;
        buf_index = 0;
        buf_size = length bytes - block_header_size;
      } in
      elim (open_box fh.key fh.nonce bytes) [
        | some message ↦ (none, opened message)
        | none ↦ elim (hard_error e) [
          | some x ↦ (some x, record fh { rc = rc })
          | none ↦ (none, opened (replicate (length bytes) 0))
        ]
      ]

  -- `fillBuffer`.
  unfoldable pub fill_buffer : Decrypter → Option Error × Decrypter
  unfolding unseal
  fill_buffer fh =
      let filled = read_fill block_size fh.rc in
      let moved = record fh { rc = filled.2 } in
      if length filled.0 == 0
      then (filled.1, moved)
      else if leb (length filled.0) block_header_size
      then elim (hard_error filled.1) [ some x ↦ (some x, moved) | none ↦ (some bad_header, moved) ]
      else unseal filled fh

  -- A failure of `fillBuffer` is recorded, and else the bytes are copied.
  unfoldable pub after_fill : ℕ → Option Error × Decrypter → List ℕ × Option Error × Decrypter
  after_fill k (some e, fh) = ([], some (finish e fh).0, (finish e fh).1)
  after_fill k (none, fh) = copy_out k fh

  -- `Read` into a buffer of `k` bytes.
  unfoldable pub read : ℕ → Decrypter → List ℕ × Option Error × Decrypter
  read k fh = elim fh.failure [
    | some e ↦ ([], some e, fh)
    | none ↦ if leb fh.buf_size fh.buf_index then after_fill k (fill_buffer fh) else copy_out k fh
  ]

  -- Any error of a seek is recorded by `finish`.
  unfoldable pub failed_seek : Error → Decrypter → Result ℕ × Decrypter
  failed_seek e fh = (err (finish e fh).0, (finish e fh).1)

  -- `unFinish` clears an end of file, and any other error stays.
  unfoldable pub un_finish : Decrypter → Option Error × Decrypter
  un_finish fh = elim fh.failure [
    | none ↦ (none, fh)
    | some e ↦
        if is_eof e
        then (none, record fh { failure = none; buf = []; buf_index = 0; buf_size = 0 })
        else (some e, fh)
  ]

  -- The end of `RangeSeek`, by what `fillBuffer` did.
  unfoldable pub settle : ℕ → ℤ → (discard : ℕ) → Option Error × Decrypter → Result ℕ × Decrypter
  settle offset limit discard (some e, fh) = failed_seek e fh
  settle offset limit discard (none, fh) =
      if ltb fh.buf_size discard
      then failed_seek bad_seek fh
      else (ok offset, record fh { buf_index = discard; limit = limit })

  unfoldable pub reopened : ℕ → ℤ → (discard : ℕ) → Decrypter → Result Source → Result ℕ × Decrypter
  reopened offset limit discard fh (err e) = failed_seek (reopen e) fh
  reopened offset limit discard fh (ok rc) =
      settle offset limit discard (fill_buffer (record fh { rc = rc }))

  module _ (open_range : ℕ → ℤ → Result Source) where
    -- The part of `RangeSeek` behind its checks.
    unfoldable pub seek_to : ℕ → ℤ → Option Error × Decrypter → Result ℕ × Decrypter
    seek_to offset limit (some e, fh) = (err e, fh)
    seek_to offset limit (none, fh) =
        let u = calculate_underlying offset limit in
        reopened offset limit u.discard (record fh { nonce = add u.blocks fh.initial_nonce })
          (open_range u.offset u.limit)

    -- `RangeSeek`; `from_start` tells whether `whence` is `io.SeekStart`.
    unfoldable pub range_seek : ℕ → (from_start : Bool) → ℤ → Decrypter → Result ℕ × Decrypter
    range_seek offset from_start limit fh =
        if fh.seekable && from_start
        then seek_to offset limit (un_finish fh)
        else failed_seek misused fh

    -- `Seek` has no limit.
    unfoldable pub seek : ℕ → (from_start : Bool) → Decrypter → Result ℕ × Decrypter
    seek offset from_start fh = range_seek offset from_start (negsuc 0) fh

    -- The end of `newDecrypterSeek`: a failed seek is an error of the opening.
    unfoldable pub sought : Result ℕ × Decrypter → Result Decrypter
    sought (err e, fh) = err e
    sought (ok _, fh) = ok fh

    unfoldable pub started :
        (seeks : Bool) → ℕ → ℤ → (final : ℤ) → Result Decrypter → Result Decrypter
    started seeks offset limit final (err e) = err e
    started true offset limit final (ok fh) =
        sought (range_seek offset true limit (record fh { seekable = true }))
    started false offset limit final (ok fh) = ok (record fh { seekable = true; limit = final })

    -- `newDecrypterSeek` behind the opening: the header, then the seek or the limit.
    unfoldable pub opened_at :
        List ℕ → (seeks : Bool) → ℕ → ℤ → (final : ℤ) → Result Source → Result Decrypter
    opened_at key seeks offset limit final (err e) = err e
    opened_at key seeks offset limit final (ok rc) =
        started seeks offset limit final (new_decrypter key rc)

    -- `newDecrypterSeek`, which `DecryptDataSeek` returns.
    unfoldable pub new_decrypter_seek : List ℕ → ℕ → ℤ → Result Decrypter
    new_decrypter_seek key offset (negsuc l) =
        if offset == 0
        then opened_at key false offset (negsuc l) (negsuc 0) (open_range 0 (negsuc 0))
        else opened_at key true offset (negsuc l) (negsuc 0) (open_range 0 (pos file_header_size))
    new_decrypter_seek key offset (pos l) =
        if offset == 0
        then opened_at key false offset (pos l) (pos l)
            (open_range 0 (header_and (calculate_underlying offset (pos l)).limit))
        else opened_at key true offset (pos l) (negsuc 0) (open_range 0 (pos file_header_size))
