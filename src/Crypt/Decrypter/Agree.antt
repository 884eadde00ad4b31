-- ===== src/Crypt/Decrypter/Agree.antt =====
-- Which ranges the opening with a limit asks the caller's function for: they begin inside the file,
-- and have a positive limit.
use teldrive_easy.Prelude.{
  ℕ, zero, suc, ◌+◌, ◌*◌, ◌<◌, ◌≡◌, ◌≢◌, refl, sym, ap, ◌∙◌, List, [], ◌++◌, Option, none, some,
  length, drop, take, arith, length-drop, length-append, ==_false, Bool, true, false,
}
use teldrive_easy.Prelude.Int.{ℤ, pos, negsuc}
use teldrive_easy.Crypt.Errors.{Error, Result, ok, err}
use teldrive_easy.Crypt.Nonce.{Nonce, add, increment, file_nonce_size}
use teldrive_easy.Crypt.Nonce.Value.{increments}
use teldrive_easy.Crypt.Size.{
  block_data_size, block_size, calculate_underlying, blocks_to_read, file_header_size,
}
use teldrive_easy.Crypt.Size.Laws.{blocks_to_read_bounds}
use teldrive_easy.Crypt.Source.{Source}
use teldrive_easy.Crypt.Box.{SecretBox, body, encrypted, file_magic_bytes}
use teldrive_easy.Crypt.Box.Blocks.{body-step, drop-body}
use teldrive_easy.Crypt.Decrypter.{
  Decrypter, header_and, new_decrypter, new_decrypter_seek, opened_at, range_seek, reopened,
  seek_to, sought, started, un_finish,
}

-- A file has a byte behind its first `k` blocks where the plaintext has.
body_beyond :
    (box : SecretBox) (key : List ℕ) (k : ℕ) (n : Nonce) (p : List ℕ)
    → k * block_data_size < length p
    → k * block_size < length (body box key n p)
body_beyond box key k n p h =
    let rest = drop (k * block_data_size) p in
    let some_rest : rest ≢ [] =
      λ e. absurd (omega (arith, h, length-drop (k * block_data_size) p, ap length e)) in
    let tail = body-step box key (increments k n) rest some_rest in
    omega (
      arith,
      length-drop (k * block_size) (body box key n p),
      ap length (drop-body box key k n p),
      ap length tail,
      length-append (box.seal key (increments k n) (take block_data_size rest))
          (body box key (increment (increments k n)) (drop block_data_size rest)),
      box.length-seal key (increments k n) (take block_data_size rest),
    )

pub header_and-pos : (m : ℕ) → header_and (pos m) ≡ pos (file_header_size + m)
unfolding header_and
header_and-pos m = ground arith

module _ (box : SecretBox) (key : List ℕ) (n : Nonce) (plain : List ℕ) (f g : ℕ → ℤ → Result Source)
    (size : length n ≡ file_nonce_size)
    (agree : (offset l : ℕ)
      → offset < length (encrypted box key n plain)
      → 0 < l
      → f offset (pos l) ≡ g offset (pos l)) where
  inside :
      (k : ℕ)
      → k * block_data_size < length plain
      → file_header_size + k * block_size < length (encrypted box key n plain)
  inside k h = omega (
    arith,
    body_beyond box key k n plain h,
    size,
    length-append file_magic_bytes (n ++ body box key n plain),
    length-append n (body box key n plain),
  )

  seek_to-agree :
      (offset limit : ℕ) (r : Option Error × Decrypter)
      → 0 < limit
      → offset < length plain
      → seek_to box f offset (pos limit) r ≡ seek_to box g offset (pos limit) r
  unfolding seek_to
  seek_to-agree offset limit (some e, fh) positive h = refl
  seek_to-agree offset limit (none, fh) positive h =
      let u = calculate_underlying offset (pos limit) in
      let count = blocks_to_read u.discard limit in
      let (at, limited, placed, covered, _) = blocks_to_read_bounds offset limit positive in
      let same : f u.offset u.limit ≡ g u.offset u.limit =
        ap (f u.offset) limited
        ∙ agree u.offset (count * block_size)
            (omega (arith, placed, inside u.blocks (omega (arith, at, h))))
            (omega (arith, at, covered, positive))
        ∙ sym (ap (g u.offset) limited) in
      ap
        (reopened box offset (pos limit) u.discard
          (record fh { nonce = add u.blocks fh.initial_nonce }))
        same

  started-agree :
      (seeks : Bool) (offset limit : ℕ) (final : ℤ) (r : Result Decrypter)
      → 0 < limit
      → offset < length plain
      → started box f seeks offset (pos limit) final r
        ≡ started box g seeks offset (pos limit) final r
  unfolding started range_seek sought
  started-agree seeks offset limit final (err e) positive h = refl
  started-agree false offset limit final (ok fh) positive h = refl
  started-agree true offset limit final (ok fh) positive h =
      ap (sought box f)
        (seek_to-agree offset limit (un_finish box (record fh { seekable = true })) positive h)

  opened_at-agree :
      (seeks : Bool) (offset limit : ℕ) (final : ℤ) (r : Result Source)
      → 0 < limit
      → offset < length plain
      → opened_at box f key seeks offset (pos limit) final r
        ≡ opened_at box g key seeks offset (pos limit) final r
  unfolding opened_at
  opened_at-agree seeks offset limit final (err e) positive h = refl
  opened_at-agree seeks offset limit final (ok rc) positive h =
      started-agree seeks offset limit final (new_decrypter key rc) positive h

  -- Two functions that agree on these ranges open the same decrypter.
  pub new_decrypter_seek-agree :
      (offset limit : ℕ)
      → 0 < limit
      → offset < length plain
      → new_decrypter_seek box f key offset (pos limit)
        ≡ new_decrypter_seek box g key offset (pos limit)
  unfolding new_decrypter_seek header_and calculate_underlying
  new_decrypter_seek-agree zero limit positive h =
      let count = blocks_to_read 0 limit * block_size in
      let asked : f 0 (header_and (pos count)) ≡ g 0 (header_and (pos count)) =
        ap (f 0) (header_and-pos count)
        ∙ agree 0 (file_header_size + count) (omega (arith, inside 0 (omega arith))) (omega arith)
        ∙ sym (ap (g 0) (header_and-pos count)) in
      opened_at-agree false 0 limit (pos limit) (f 0 (header_and (pos count))) positive h
      ∙ ap (opened_at box g key false 0 (pos limit) (pos limit)) asked
  new_decrypter_seek-agree (suc o) limit positive h =
      rw (==_false (suc o) 0 (λ z. absurd (omega arith))) (
        opened_at-agree true (suc o) limit (negsuc 0) (f 0 (pos file_header_size)) positive h
        ∙ ap (opened_at box g key true (suc o) (pos limit) (negsuc 0))
            (agree 0 file_header_size (omega (arith, inside 0 (omega arith))) (omega arith)))
