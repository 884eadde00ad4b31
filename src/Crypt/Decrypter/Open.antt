-- ===== src/Crypt/Decrypter/Open.antt =====
-- Opening an encrypted file at an offset, and what is read from there.
use teldrive_easy.Prelude.{
  ℕ, zero, suc, ◌+◌, ◌*◌, ◌^◌, ◌<◌, ◌≤◌, ◌≡◌, refl, sym, ap, ap₂, subst, ◌∙◌, List, [], ◌++◌, some,
  length, take, drop, arith, append_assoc, length-take, length-drop, drop_zero, take_zero,
  length-append, ==_false, take-take, take-append_add, Bool, true, false, ◌≢◌,
}
use teldrive_easy.Prelude.Int.{ℤ, pos, negsuc}
use teldrive_easy.Stream.{read_all, AllPositive, read_all-collects}
use teldrive_easy.Crypt.Errors.{Result, ok, eof}
use teldrive_easy.Crypt.Nonce.{Nonce, IsBytes, file_nonce_size}
use teldrive_easy.Crypt.Size.{
  block_data_size, block_size, file_header_size, calculate_underlying, blocks_to_read,
}
use teldrive_easy.Crypt.Size.Laws.{blocks_to_read_cover}
use teldrive_easy.Crypt.Source.{Source}
use teldrive_easy.Crypt.Box.{SecretBox, body, encrypted, file_magic_bytes}
use teldrive_easy.Crypt.Box.Blocks.{take-body}
use teldrive_easy.Crypt.Decrypter.{
  Decrypter, read, un_finish, range_seek, sought, started, opened_at, new_decrypter_seek,
  header_and,
}
use teldrive_easy.Crypt.Decrypter.Reads.{cap, Holds, read-Serves}
use teldrive_easy.Crypt.Decrypter.Header.{OpensFile, fresh, new_decrypter_header}
use teldrive_easy.Crypt.Decrypter.Agree.{header_and-pos}
use teldrive_easy.Crypt.Decrypter.Seek.{seek_to-Holds}

length-cap : (limit : ℤ) (xs : List ℕ) → length (cap limit xs) ≤ length xs
length-cap (pos l) xs = omega (arith, length-take l xs)
length-cap (negsuc l) xs = omega arith

module _ (box : SecretBox) (key : List ℕ) (n : Nonce) (plain : List ℕ)
    (open_range : ℕ → ℤ → Result Source) (opens : OpensFile open_range (encrypted box key n plain))
    (bytes : IsBytes n) (size : length n ≡ file_nonce_size) where
  abbrev file : List ℕ
  file = encrypted box key n plain

  file_split : file ≡ (file_magic_bytes ++ n) ++ body box key n plain
  file_split = sym (append_assoc file_magic_bytes n (body box key n plain))

  header_size : length (file_magic_bytes ++ n) ≡ file_header_size
  header_size = omega (arith, length-append file_magic_bytes n, size)

  -- What `open` gives for the header, and behind it for `m` more bytes.
  take-file :
      (m : ℕ)
      → take (file_header_size + m) (drop 0 file)
        ≡ (file_magic_bytes ++ n) ++ take m (body box key n plain)
  take-file m =
      ap₂ take {x = file_header_size + m} (omega (arith, header_size)) (drop_zero file ∙ file_split)
      ∙ take-append_add (file_magic_bytes ++ n) (body box key n plain) m

  -- The opening reads the header, and goes on behind it.
  opened_at-started :
      (seeks : Bool) (offset : ℕ) (limit final first : ℤ) (rest : List ℕ)
      → cap first (drop 0 file) ≡ (file_magic_bytes ++ n) ++ rest
      → (rc : Source) × (opened_at box open_range key seeks offset limit final (open_range 0 first)
          ≡ started box open_range seeks offset limit final (ok (fresh key n rc)))
        × (rc.bytes ≡ rest)
        × (rc.tail ≡ eof)
  unfolding opened_at
  opened_at-started seeks offset limit final first rest e =
      let (s, opened, got, tail) = opens 0 first in
      let (rc, made, left, tail') = new_decrypter_header key n s rest size (got ∙ e) tail in
      (
        rc,
        ap (opened_at box open_range key seeks offset limit final) opened
            ∙ ap (started box open_range seeks offset limit final) made,
        left,
        tail',
      )

  -- With a seek.
  opened_at-seeks :
      (offset : ℕ) (limit : ℤ)
      → offset < length plain
      → length plain < 2 ^ 64
      → (fh : Decrypter) × (opened_at box open_range key true offset limit
            (negsuc 0)
            (open_range 0 (pos file_header_size))
          ≡ ok fh)
        × Holds box (cap limit (drop offset plain)) fh
  unfolding started range_seek un_finish sought
  opened_at-seeks offset limit h small =
      let (rc, e, _, _) =
        opened_at-started true offset limit (negsuc 0) (pos file_header_size) []
          (take-file 0 ∙ ap (◌++◌ (file_magic_bytes ++ n)) (take_zero (body box key n plain))) in
      let (fh, sought', holds) =
        seek_to-Holds box key n plain open_range opens bytes size offset limit
          (record (fresh key n rc) { seekable = true }) refl refl refl h small in
      (fh, e ∙ ap (sought box open_range) sought', holds)

  -- With a limit only.
  opened_at-limited :
      (limit final first : ℤ) (rest : List ℕ)
      → cap first (drop 0 file) ≡ (file_magic_bytes ++ n) ++ body box key n rest
      → (fh : Decrypter) × (opened_at box open_range key false 0 limit final (open_range 0 first)
          ≡ ok fh)
        × Holds box (cap final rest) fh
  unfolding started
  opened_at-limited limit final first rest e =
      let (rc, made, left, tail) =
        opened_at-started false 0 limit final first (body box key n rest) e in
      (
        record (fresh key n rc) { seekable = true; limit = final },
        made,
        record {
          rest = rest;
          alive = refl;
          fits = omega arith;
          ends = tail;
          blocks = left;
          holds = ap (λ w. cap final (w ++ rest)) (take_zero (drop 0 []));
        },
      )

  at_start : (limit : ℤ) → cap limit (drop 0 plain) ≡ cap limit plain
  at_start limit = ap (cap limit) (drop_zero plain)

  limited_span : (l : ℕ) → take l (take (blocks_to_read 0 l * block_data_size) plain) ≡ take l plain
  limited_span l =
      take-take l (blocks_to_read 0 l * block_data_size) plain
      ∙ ap (λ m. take m plain) (omega (arith, (blocks_to_read_cover 0 l (omega arith)).0))

  -- Whatever the offset and the limit, the opened decrypter holds what they ask for.
  pub new_decrypter_seek-Holds :
      (offset : ℕ) (limit : ℤ)
      → (offset ≢ 0 → offset < length plain)
      → length plain < 2 ^ 64
      → (fh : Decrypter) × (new_decrypter_seek box open_range key offset limit ≡ ok fh)
        × Holds box (cap limit (drop offset plain)) fh
  unfolding new_decrypter_seek header_and calculate_underlying
  new_decrypter_seek-Holds zero (negsuc l) h small =
      let (fh, e, holds) =
        opened_at-limited (negsuc l) (negsuc 0) (negsuc 0) plain (drop_zero file ∙ file_split) in
      (fh, e, subst (λ p. Holds box p fh) (sym (drop_zero plain)) holds)
  new_decrypter_seek-Holds zero (pos l) h small =
      let count = blocks_to_read 0 l * block_size in
      let (fh, e, holds) =
        opened_at-limited (pos l) (pos l) (pos (file_header_size + count))
          (take (blocks_to_read 0 l * block_data_size) plain)
          (take-file count
            ∙ ap (◌++◌ (file_magic_bytes ++ n)) (take-body box key (blocks_to_read 0 l) n plain)) in
      (
        fh,
        ap (λ z. opened_at box open_range key false 0 (pos l) (pos l) (open_range 0 z))
              (header_and-pos count)
            ∙ e,
        subst (λ p. Holds box p fh) (limited_span l ∙ sym (at_start (pos l))) holds,
      )
  new_decrypter_seek-Holds (suc o) (negsuc l) h small =
      let (fh, e, holds) =
        opened_at-seeks (suc o) (negsuc l) (h (λ z. absurd (omega arith))) small in
      (fh, rw (==_false (suc o) 0 (λ z. absurd (omega arith))) e, holds)
  new_decrypter_seek-Holds (suc o) (pos l) h small =
      let (fh, e, holds) = opened_at-seeks (suc o) (pos l) (h (λ z. absurd (omega arith))) small in
      (fh, rw (==_false (suc o) 0 (λ z. absurd (omega arith))) e, holds)

  -- Let a file be the encryption of a plaintext of fewer than 2^64 bytes under a nonce of 24 bytes,
  -- and let the caller's function give the bytes of any range of it. Opening it at the offset 0, or
  -- at one inside the plaintext, with a limit or without one, succeeds, and reading it in reads of
  -- any positive sizes, more of them than the plaintext has bytes, gives the plaintext from the
  -- offset on, up to the limit, and then the end of the file.
  pub read_all-new_decrypter_seek :
      (offset : ℕ) (limit : ℤ) (ks : List ℕ)
      → (offset ≢ 0 → offset < length plain)
      → length plain < 2 ^ 64
      → AllPositive ks
      → length plain < length ks
      → (fh : Decrypter) × (new_decrypter_seek box open_range key offset limit ≡ ok fh)
        × ((read_all (read box) ks fh).0 ≡ cap limit (drop offset plain))
        × ((read_all (read box) ks fh).1 ≡ some eof)
  read_all-new_decrypter_seek offset limit ks h small positive enough =
      let (fh, e, holds) = new_decrypter_seek-Holds offset limit h small in
      let (got, last) =
        read_all-collects (read box) (Holds box) eof (read-Serves box) ks
          (cap limit (drop offset plain)) fh positive
          (omega (arith, length-cap limit (drop offset plain), length-drop offset plain)) holds in
      (fh, e, got, last)
