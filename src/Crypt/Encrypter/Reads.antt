-- ===== src/Crypt/Encrypter/Reads.antt =====
-- What comes out of the encrypting reader, read by read.
use teldrive_easy.Prelude.{
  ℕ, ◌+◌, ◌-◌, ◌<◌, ◌≤◌, ◌≡◌, refl, sym, ap, ap₂, subst, ◌∙◌, List, [], ◌++◌, some, none, length,
  take, drop, arith, inl, inr, dec_lt, append_assoc, slice_split, length-take_pos, length-take,
  length-drop, take_all, drop_zero, take_zero, length-append, length-eq-zero, leb-true, leb-false,
  ==_true, ==_false,
}
use teldrive_easy.Stream.{read_all, Serves, AllPositive, read_all-collects}
use teldrive_easy.Crypt.Errors.{Error, ok, err, short_nonce}
use teldrive_easy.Crypt.Nonce.{Nonce, increment, file_nonce_size}
use teldrive_easy.Crypt.Size.{file_header_size, block_header_size, block_data_size}
use teldrive_easy.Crypt.Source.{Source, read_fill}
use teldrive_easy.Crypt.Source.Fill.{read_fill-Filled}
use teldrive_easy.Crypt.Box.{SecretBox, body, encrypted, file_magic_bytes}
use teldrive_easy.Crypt.Box.Blocks.{body-nil, body-step}
use teldrive_easy.Crypt.Encrypter.{
  Encrypter, window, copy_out, refill, finish, read, new_encrypter, start, nonce_from_reader,
}

module _ (box : SecretBox) (last : Error) where
  -- The encrypter has `pending` to give: what is in its buffer, then the blocks of its input.
  pub record Holds (pending : List ℕ) (fh : Encrypter) : Type 0 where
    pub alive : fh.failure ≡ none
    pub fits : fh.buf_size ≤ length fh.buf
    pub holds : window fh ++ body box fh.key fh.nonce fh.input.bytes ≡ pending
    pub ends : fh.input.tail ≡ last

  copy_out-Serves :
      (k : ℕ) (pending : List ℕ) (fh : Encrypter)
      → 0 < k
      → Holds pending fh
      → fh.buf_index < fh.buf_size
      → Serves (read box) Holds last pending (copy_out k fh)
  unfolding copy_out
  copy_out-Serves k pending fh pos h room = record {
    rest =
        take (fh.buf_size - (fh.buf_index + length (take k (window fh))))
          (drop (fh.buf_index + length (take k (window fh))) fh.buf)
        ++ body box fh.key fh.nonce fh.input.bytes;
    split =
        sym (append_assoc (take k (window fh)) _ _)
        ∙ ap (λ w. w ++ body box fh.key fh.nonce fh.input.bytes)
            (slice_split k fh.buf_index fh.buf_size fh.buf)
        ∙ h.holds;
    outcome = inl (
      refl,
      record { alive = h.alive; fits = h.fits; holds = refl; ends = h.ends },
      length-take_pos k (window fh) pos (
          omega (
            arith,
            length-take (fh.buf_size - fh.buf_index) (drop fh.buf_index fh.buf),
            length-drop fh.buf_index fh.buf,
            h.fits,
          )),
    );
  }

  -- An empty window leaves the blocks of the input.
  pending_blocks :
      (pending : List ℕ) (fh : Encrypter)
      → Holds pending fh
      → fh.buf_size ≤ fh.buf_index
      → body box fh.key fh.nonce fh.input.bytes ≡ pending
  pending_blocks pending fh h empty =
      let none_left : fh.buf_size - fh.buf_index ≡ 0 = omega arith in
      ap (λ w. w ++ body box fh.key fh.nonce fh.input.bytes)
        (sym (
          ap (λ m. take m (drop fh.buf_index fh.buf)) none_left
          ∙ take_zero (drop fh.buf_index fh.buf)))
      ∙ h.holds

  -- A full buffer after the next block was sealed holds the same bytes.
  refill-Holds :
      (pending : List ℕ) (fh : Encrypter)
      → Holds pending fh
      → fh.buf_size ≤ fh.buf_index
      → 0 < length (read_fill block_data_size fh.input).0
      → Holds pending (refill box (read_fill block_data_size fh.input) fh)
  unfolding refill
  refill-Holds pending fh h empty some_left =
      let (m, e, input) = read_fill block_data_size fh.input in
      let filled = read_fill-Filled block_data_size fh.input in
      let sealed = box.seal fh.key fh.nonce m in
      record {
        alive = h.alive;
        fits = omega (arith, box.length-seal fh.key fh.nonce m);
        holds =
            ap (λ w. w ++ body box fh.key (increment fh.nonce) input.bytes)
              (ap (take (block_header_size + length m - 0)) (drop_zero sealed)
                ∙ take_all (block_header_size + length m - 0) sealed
                    (omega (arith, box.length-seal fh.key fh.nonce m)))
            ∙ ap₂ (λ x y. box.seal fh.key fh.nonce x ++ body box fh.key (increment fh.nonce) y)
                filled.got filled.left.bytes_left
            ∙ sym (
                body-step box fh.key fh.nonce fh.input.bytes (λ e'. absurd (
                  omega (
                    arith,
                    ap length filled.got,
                    ap length e',
                    length-take block_data_size fh.input.bytes,
                  ))))
            ∙ pending_blocks pending fh h empty;
        ends = filled.left.same_tail ∙ h.ends;
      }

  -- At the end of the input nothing is pending, and its error is reported.
  end-Serves :
      (k : ℕ) (pending : List ℕ) (fh : Encrypter)
      → Holds pending fh
      → fh.buf_size ≤ fh.buf_index
      → length (read_fill block_data_size fh.input).0 ≡ 0
      → (fh' : Encrypter)
      → Serves (read box) Holds last pending ([], (read_fill block_data_size fh.input).1, fh')
  end-Serves k pending fh h empty none_left fh' =
      let filled = read_fill-Filled block_data_size fh.input in
      let drained : length fh.input.bytes ≡ 0 =
        omega (arith, ap length filled.got, length-take block_data_size fh.input.bytes) in
      record {
        rest = [];
        split =
            sym (body-nil box fh.key fh.nonce)
            ∙ ap (body box fh.key fh.nonce) (sym (length-eq-zero fh.input.bytes drained))
            ∙ pending_blocks pending fh h empty;
        outcome = inr (filled.short (omega (arith, drained)) ∙ ap some h.ends, refl);
      }

  refill_room :
      (fh : Encrypter)
      → let fh' = refill box (read_fill block_data_size fh.input) fh in fh'.buf_index < fh'.buf_size
  unfolding refill
  refill_room fh = omega arith

  -- The three ways through `Read`.
  read_room :
      (k : ℕ) (fh : Encrypter)
      → fh.failure ≡ none
      → fh.buf_index < fh.buf_size
      → read box k fh ≡ copy_out k fh
  unfolding read
  read_room k fh alive room = rw (alive, leb-false room)

  read-refill :
      (k : ℕ) (fh : Encrypter)
      → fh.failure ≡ none
      → fh.buf_size ≤ fh.buf_index
      → 0 < length (read_fill block_data_size fh.input).0
      → read box k fh ≡ copy_out k (refill box (read_fill block_data_size fh.input) fh)
  unfolding read
  read-refill k fh alive full more = rw (
    alive,
    leb-true full,
    ==_false (length (read_fill block_data_size fh.input).0) 0 (λ e. absurd (omega arith)),
  )

  read_last :
      (k : ℕ) (fh : Encrypter)
      → fh.failure ≡ none
      → fh.buf_size ≤ fh.buf_index
      → length (read_fill block_data_size fh.input).0 ≡ 0
      → (fh' : Encrypter) × (read box k fh ≡ ([], (read_fill block_data_size fh.input).1, fh'))
  unfolding read
  read_last k fh alive full none_left = (
    finish (read_fill block_data_size fh.input).1
        (record fh { input = (read_fill block_data_size fh.input).2 }),
    rw (alive, leb-true full, ==_true _ _ none_left),
  )

  -- Each `Read` into a buffer that is not empty serves what is pending.
  read-Serves :
      (k : ℕ) (pending : List ℕ) (fh : Encrypter)
      → 0 < k
      → Holds pending fh
      → Serves (read box) Holds last pending (read box k fh)
  read-Serves k pending fh pos h = elim (dec_lt fh.buf_index fh.buf_size) [
    | yes room ↦ rw (read_room k fh h.alive room) (copy_out-Serves k pending fh pos h room)
    | no full ↦ elim (dec_lt 0 (length (read_fill block_data_size fh.input).0)) [
      | yes more ↦ rw (read-refill k fh h.alive (omega arith) more) (
          copy_out-Serves k pending _ pos (refill-Holds pending fh h (omega arith) more)
            (refill_room fh))
      | no done ↦
          let (fh', e) = read_last k fh h.alive (omega arith) (omega arith) in
          rw e (end-Serves k pending fh h (omega arith) (omega arith) fh')
    ]
  ]

module _ (box : SecretBox) where
  start-Holds :
      (key : List ℕ) (input : Source) (nonce : Nonce)
      → length nonce ≡ file_nonce_size
      → Holds box input.tail (encrypted box key nonce input.bytes) (start key input nonce)
  unfolding start
  start-Holds key input nonce l = record {
    alive = refl;
    fits = omega (arith, length-append file_magic_bytes nonce);
    holds =
        ap (λ w. w ++ body box key nonce input.bytes)
          (ap (take (file_header_size - 0)) (drop_zero (file_magic_bytes ++ nonce))
            ∙ take_all (file_header_size - 0) (file_magic_bytes ++ nonce)
                (omega (arith, length-append file_magic_bytes nonce)));
    ends = refl;
  }

  -- Reading an encrypter that was made with a nonce of 24 bytes, in reads of any positive sizes,
  -- more of them than the encrypted file has bytes, over an input that splits its bytes in any way,
  -- gives the header and the sealed blocks of the whole input, and then the error that the input
  -- ended with.
  pub read_all-new_encrypter :
      (key : List ℕ) (random input : Source) (nonce : Nonce) (ks : List ℕ) (fh : Encrypter)
      → length nonce ≡ file_nonce_size
      → AllPositive ks
      → length (encrypted box key nonce input.bytes) < length ks
      → new_encrypter key random input (some nonce) ≡ ok fh
      → ((read_all (read box) ks fh).0 ≡ encrypted box key nonce input.bytes)
        × ((read_all (read box) ks fh).1 ≡ some input.tail)
  unfolding new_encrypter
  read_all-new_encrypter key random input nonce ks fh l pos enough made =
      read_all-collects (read box) (Holds box input.tail) input.tail (read-Serves box input.tail) ks
        (encrypted box key nonce input.bytes) fh pos enough
        (subst (Holds box input.tail (encrypted box key nonce input.bytes)) (cc)
          (start-Holds key input nonce l))

nonce_from_reader_full :
    (random : Source)
    → file_nonce_size ≤ length random.bytes
    → nonce_from_reader random ≡ ok (take file_nonce_size random.bytes)
unfolding nonce_from_reader
nonce_from_reader_full random h = rw (
  (read_fill-Filled file_nonce_size random).got,
  nonce_from_reader,
  ==_true (length (take file_nonce_size random.bytes)) file_nonce_size
      (omega (arith, length-take file_nonce_size random.bytes)),
)

nonce_from_reader_short :
    (random : Source)
    → length random.bytes < file_nonce_size
    → nonce_from_reader random ≡ err short_nonce
unfolding nonce_from_reader
nonce_from_reader_short random h = rw (
  (read_fill-Filled file_nonce_size random).got,
  nonce_from_reader,
  ==_false (length (take file_nonce_size random.bytes)) file_nonce_size
      (λ e. absurd (omega (arith, length-take file_nonce_size random.bytes, e))),
)

-- Without a nonce the first 24 random bytes are taken; fewer are an error.
pub new_encrypter_random :
    (key : List ℕ) (random input : Source)
    → (file_nonce_size ≤ length random.bytes
        → new_encrypter key random input none
          ≡ new_encrypter key random input (some (take file_nonce_size random.bytes)))
      × (length random.bytes < file_nonce_size
          → new_encrypter key random input none ≡ err short_nonce)
unfolding new_encrypter
new_encrypter_random key random input = (
  λ h. rw (nonce_from_reader_full random h, new_encrypter),
  λ h. rw (nonce_from_reader_short random h, new_encrypter),
)
