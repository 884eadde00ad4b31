-- ===== src/Crypt/Decrypter/Seek.antt =====
-- Seeking in an encrypted file.
use teldrive_easy.Prelude.{
  ℕ, ◌+◌, ◌-◌, ◌*◌, ◌/◌, ◌%◌, ◌^◌, ◌<◌, ◌≤◌, ◌≡◌, sym, ap, ap₂, subst, ◌∙◌, List, ◌++◌, none,
  length, take, drop, arith, append_assoc, length-take, length-drop, length-append, ltb-false,
  take-take, drop-drop, drop-take, drop-append_add,
}
use teldrive_easy.Prelude.Int.{ℤ, pos, negsuc}
use teldrive_easy.Crypt.Errors.{Result, ok}
use teldrive_easy.Crypt.Nonce.{Nonce, IsBytes, add, file_nonce_size}
use teldrive_easy.Crypt.Nonce.Value.{increments, add-increments}
use teldrive_easy.Crypt.Size.{
  block_data_size, block_size, file_header_size, calculate_underlying, blocks_to_read,
}
use teldrive_easy.Crypt.Size.Laws.{blocks_to_read_cover}
use teldrive_easy.Crypt.Source.{Source}
use teldrive_easy.Crypt.Box.{SecretBox, body, encrypted, file_magic_bytes}
use teldrive_easy.Crypt.Box.Blocks.{drop-body, take-body}
use teldrive_easy.Crypt.Decrypter.{Decrypter, fill_buffer, settle, reopened, seek_to}
use teldrive_easy.Crypt.Decrypter.Reads.{
  cap, Holds, Feeds, filled, filled-size, filled-Holds, fill_buffer_block,
}
use teldrive_easy.Crypt.Decrypter.Header.{OpensFile}

-- What the opened blocks hold of the plaintext, and what is read from it.
abbrev span : ℕ → ℤ → List ℕ → List ℕ
span offset (pos limit) plain =
    take (blocks_to_read (offset % block_data_size) limit * block_data_size)
      (drop (offset / block_data_size * block_data_size) plain)
span offset (negsuc _) plain = drop (offset / block_data_size * block_data_size) plain

whole_blocks :
    (offset : ℕ) → offset / block_data_size * block_data_size + offset % block_data_size ≡ offset
whole_blocks offset = omega arith

span-read :
    (offset : ℕ) (limit : ℤ) (plain : List ℕ)
    → cap limit (drop (offset % block_data_size) (span offset limit plain))
      ≡ cap limit (drop offset plain)
span-read offset (negsuc l) plain =
    drop-drop (offset % block_data_size) (offset / block_data_size * block_data_size) plain
    ∙ ap (λ m. drop m plain) (whole_blocks offset)
span-read offset (pos l) plain =
    let d = offset % block_data_size in
    let room = blocks_to_read d l * block_data_size in
    let from = offset / block_data_size * block_data_size in
    let cover = blocks_to_read_cover d l (omega arith) in
    ap (take l) (drop-take d room (drop from plain))
    ∙ take-take l (room - d) (drop d (drop from plain))
    ∙ ap₂ take (omega (arith, cover.0))
        (drop-drop d from plain ∙ ap (λ m. drop m plain) (whole_blocks offset))

span_long :
    (offset : ℕ) (limit : ℤ) (plain : List ℕ)
    → offset < length plain
    → offset % block_data_size < length (span offset limit plain)
span_long offset (negsuc l) plain h =
    omega (arith, length-drop (offset / block_data_size * block_data_size) plain)
span_long offset (pos l) plain h =
    let d = offset % block_data_size in
    let from = offset / block_data_size * block_data_size in
    let cover = blocks_to_read_cover d l (omega arith) in
    omega (
      arith,
      length-drop from plain,
      length-take (blocks_to_read d l * block_data_size) (drop from plain),
      cover.1,
    )

module _ (box : SecretBox) (key : List ℕ) (n : Nonce) (plain : List ℕ) where
  abbrev file : List ℕ
  file = encrypted box key n plain

  -- The file behind its header and `b` blocks.
  drop-file :
      (b : ℕ)
      → length n ≡ file_nonce_size
      → drop (file_header_size + b * block_size) file
        ≡ body box key (increments b n) (drop (b * block_data_size) plain)
  drop-file b l =
      ap₂ drop {x = file_header_size + b * block_size}
        (omega (arith, length-append file_magic_bytes n))
        (sym (append_assoc file_magic_bytes n (body box key n plain)))
      ∙ drop-append_add (file_magic_bytes ++ n) (body box key n plain) (b * block_size)
      ∙ drop-body box key b n plain

  -- The bytes that a seek opens are the blocks that hold its span.
  span-blocks :
      (offset : ℕ) (limit : ℤ)
      → length n ≡ file_nonce_size
      → let u = calculate_underlying offset limit in
        cap u.limit (drop u.offset file)
        ≡ body box key (increments u.blocks n) (span offset limit plain)
  unfolding calculate_underlying
  span-blocks offset (negsuc m) l = drop-file (offset / block_data_size) l
  span-blocks offset (pos m) l =
      let count = blocks_to_read (offset % block_data_size) m in
      ap (take (count * block_size)) (drop-file (offset / block_data_size) l)
      ∙ take-body box key count (increments (offset / block_data_size) n)
          (drop (offset / block_data_size * block_data_size) plain)

  -- The decrypter behind a seek, from the state that read the header.
  turned : ℕ → Source → Decrypter → Decrypter
  turned offset rc fh = record fh {
    nonce = add (offset / block_data_size) fh.initial_nonce;
    rc = rc;
  }

  settled : ℕ → ℤ → Decrypter → Decrypter
  settled offset limit fh =
      record (filled box (take block_data_size (span offset limit plain)) fh) {
        buf_index = offset % block_data_size;
        limit = limit;
      }

  settle_far :
      (offset : ℕ) (limit : ℤ) (fh : Decrypter)
      → offset % block_data_size ≤ fh.buf_size
      → settle box offset limit (offset % block_data_size) (none, fh)
        ≡ (ok offset, record fh { buf_index = offset % block_data_size; limit = limit })
  unfolding settle
  settle_far offset limit fh h = rw (ltb-false {a = fh.buf_size} {b = offset % block_data_size} h)

  settle-settled :
      (offset : ℕ) (limit : ℤ) (fh : Decrypter)
      → Feeds box (span offset limit plain) fh
      → offset < length plain
      → settle box offset limit (offset % block_data_size) (fill_buffer box fh)
        ≡ (ok offset, settled offset limit fh)
  unfolding settle settled
  settle-settled offset limit fh f h =
      let rest = span offset limit plain in
      let long = span_long offset limit plain h in
      ap (settle box offset limit (offset % block_data_size))
        (fill_buffer_block box rest fh f (omega (arith, long)))
      ∙ settle_far offset limit (filled box (take block_data_size rest) fh) (
          omega (
            arith,
            filled-size box rest fh f (omega (arith, long)),
            length-take block_data_size rest,
            long,
          ))

  settled-Holds :
      (offset : ℕ) (limit : ℤ) (fh : Decrypter)
      → Feeds box (span offset limit plain) fh
      → offset < length plain
      → Holds box (cap limit (drop offset plain)) (settled offset limit fh)
  unfolding settled
  settled-Holds offset limit fh f h =
      let rest = span offset limit plain in
      let long = span_long offset limit plain h in
      subst (λ p. Holds box p (settled offset limit fh)) (span-read offset limit plain)
        (filled-Holds box rest (offset % block_data_size) limit fh f (omega (arith, long))
          (omega (arith, length-take block_data_size rest, long)))

  module _ (open_range : ℕ → ℤ → Result Source)
      (opens : OpensFile open_range (encrypted box key n plain)) (bytes : IsBytes n)
      (size : length n ≡ file_nonce_size) where
    -- A seek, from any decrypter of the file that has not failed.
    pub seek_to-Holds :
        (offset : ℕ) (limit : ℤ) (fh : Decrypter)
        → fh.failure ≡ none
        → fh.key ≡ key
        → fh.initial_nonce ≡ n
        → offset < length plain
        → length plain < 2 ^ 64
        → (fh' : Decrypter) × (seek_to box open_range offset limit (none, fh) ≡ (ok offset, fh'))
          × Holds box (cap limit (drop offset plain)) fh'
    unfolding seek_to reopened turned calculate_underlying
    seek_to-Holds offset limit fh alive same_key same_nonce h small =
        let u = calculate_underlying offset limit in
        let (rc, opened, got, tail) = opens u.offset u.limit in
        let feeds : Feeds box (span offset limit plain) (turned offset rc fh) = record {
          alive = alive;
          ends = tail;
          blocks =
              got
              ∙ span-blocks offset limit size
              ∙ ap₂ (λ k m. body box k m (span offset limit plain)) (sym same_key)
                  (sym (add-increments u.blocks n bytes (omega arith) (omega arith))
                    ∙ ap (add u.blocks) (sym same_nonce));
        } in
        (
          settled offset limit (turned offset rc fh),
          ap
                (reopened box offset limit u.discard
                  (record fh { nonce = add u.blocks fh.initial_nonce }))
                opened
              ∙ settle-settled offset limit (turned offset rc fh) feeds h,
          settled-Holds offset limit (turned offset rc fh) feeds h,
        )
