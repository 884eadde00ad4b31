-- ===== src/Crypt/Decrypter/Reads.antt =====
-- What comes out of the decrypting reader, read by read.
use teldrive_easy.Prelude.{
  ℕ, ◌+◌, ◌-◌, ◌<◌, ◌≤◌, ◌≡◌, refl, sym, ap, subst, ◌∙◌, List, [], ◌++◌, some, none, length, take,
  drop, arith, min, inl, inr, dec_lt, append_assoc, take_rest, slice_rest, length-take_pos,
  length-take, length-drop, take_all, drop_zero, take_zero, leb-true, leb-false, ==_true, ==_false,
  take-take, take-append_ge, take-nil, take-append-drop, drop-append_le, List-cases, true, false,
  Bool-cases,
}
use teldrive_easy.Prelude.Int.{ℤ, pos, negsuc}
use teldrive_easy.Stream.{Serves}
use teldrive_easy.Crypt.Errors.{Error, eof}
use teldrive_easy.Crypt.Nonce.{increment}
use teldrive_easy.Crypt.Size.{block_header_size, block_data_size, block_size}
use teldrive_easy.Crypt.Source.{read_fill}
use teldrive_easy.Crypt.Source.Fill.{read_fill-Filled}
use teldrive_easy.Crypt.Box.{SecretBox, body}
use teldrive_easy.Crypt.Box.Blocks.{body-nil, body-last, drop-body, take-body}
use teldrive_easy.Crypt.Decrypter.{
  Decrypter, copy_out, to_copy, spend, is_spent, finish, fill_buffer, unseal, after_fill, read,
}

-- What a limit lets through.
abbrev pub cap : ℤ → List ℕ → List ℕ
cap (pos l) xs = take l xs
cap (negsuc _) xs = xs

abbrev pub window : Decrypter → List ℕ
window fh = take (fh.buf_size - fh.buf_index) (drop fh.buf_index fh.buf)

-- The slice that `Read` copies from is the part of the window that the limit lets through.
to_copy-cap : (limit : ℤ) (m : ℕ) (xs : List ℕ) → take (to_copy limit m) xs ≡ cap limit (take m xs)
unfolding to_copy
to_copy-cap (pos l) m xs = ap (λ t. take t xs) (ground arith) ∙ sym (take-take l m xs)
to_copy-cap (negsuc l) m xs = refl

-- A copied piece and what the limit lets through of the rest.
cap_split :
    (limit : ℤ) (k : ℕ) (w rest : List ℕ)
    → let d = length (take k (cap limit w)) in
      take k (cap limit w) ++ cap (spend limit d) (drop d w ++ rest) ≡ cap limit (w ++ rest)
unfolding spend
cap_split (negsuc l) k w rest =
    sym (append_assoc (take k w) _ rest) ∙ ap (λ v. v ++ rest) (take_rest k w)
cap_split (pos l) k w rest = rw (take-take k l w) (
    sym (take-append_ge l (take (min k l) w) _ (omega (arith, length-take (min k l) w)))
    ∙ ap (take l) (
        sym (append_assoc (take (min k l) w) _ rest) ∙ ap (λ v. v ++ rest) (take_rest (min k l) w)))

spent_nothing : (limit : ℤ) (xs : List ℕ) → is_spent limit ≡ true → cap limit xs ≡ []
unfolding is_spent
spent_nothing (pos l) xs h = ap (λ t. take t xs) (ground arith) ∙ take_zero xs
spent_nothing (negsuc l) xs h = cc

-- A limit that is not used up by what was copied lets something through.
copied_pos :
    (limit : ℤ) (k : ℕ) (w : List ℕ)
    → 0 < k
    → 0 < length w
    → is_spent (spend limit (length (take k (cap limit w)))) ≡ false
    → 0 < length (take k (cap limit w))
unfolding spend is_spent
copied_pos (pos l) k w hk hw h = ground (arith, length-take k (take l w), length-take l w)
copied_pos (negsuc l) k w hk hw h = length-take_pos k w hk hw

module _ (box : SecretBox) where
  -- The decrypter has `pending` to give: what the limit lets through of its buffer and of the
  -- plaintext of the blocks behind it.
  pub record Holds (pending : List ℕ) (fh : Decrypter) : Type 0 where
    pub rest : List ℕ
    pub alive : fh.failure ≡ none
    pub fits : fh.buf_size ≤ length fh.buf
    pub ends : fh.rc.tail ≡ eof
    pub blocks : fh.rc.bytes ≡ body box fh.key fh.nonce rest
    pub holds : cap fh.limit (window fh ++ rest) ≡ pending

  copied : ℕ → Decrypter → List ℕ
  copied k fh = take k (cap fh.limit (window fh))

  advanced : ℕ → Decrypter → Decrypter
  advanced k fh = record fh {
    buf_index = fh.buf_index + length (take k (cap fh.limit (window fh)));
    limit = spend fh.limit (length (take k (cap fh.limit (window fh))));
  }

  finish_first : (e : Error) (fh : Decrypter) → fh.failure ≡ none → (finish e fh).0 ≡ e
  unfolding finish
  finish_first e fh alive = rw alive

  some_copied :
      (k : ℕ) (pending : List ℕ) (fh : Decrypter)
      → 0 < k
      → Holds pending fh
      → fh.buf_index < fh.buf_size
      → is_spent (spend fh.limit (length (copied k fh))) ≡ false
      → 0 < length (copied k fh)
  unfolding copied
  some_copied k pending fh hk h room more =
      copied_pos fh.limit k (window fh) hk
        (omega (
          arith,
          length-take (fh.buf_size - fh.buf_index) (drop fh.buf_index fh.buf),
          length-drop fh.buf_index fh.buf,
          h.fits,
        ))
        more

  -- Both ways out of the second half of `Read`.
  copy_out_spent :
      (k : ℕ) (fh : Decrypter)
      → is_spent (spend fh.limit (length (copied k fh))) ≡ true
      → copy_out k fh
        ≡ (copied k fh, some (finish eof (advanced k fh)).0, (finish eof (advanced k fh)).1)
  unfolding copy_out copied advanced
  copy_out_spent k fh h =
      let same = to_copy-cap fh.limit (fh.buf_size - fh.buf_index) (drop fh.buf_index fh.buf) in
      rw (same, copy_out, h)

  copy_out_more :
      (k : ℕ) (fh : Decrypter)
      → is_spent (spend fh.limit (length (copied k fh))) ≡ false
      → copy_out k fh ≡ (copied k fh, none, advanced k fh)
  unfolding copy_out copied advanced
  copy_out_more k fh h =
      let same = to_copy-cap fh.limit (fh.buf_size - fh.buf_index) (drop fh.buf_index fh.buf) in
      rw (same, copy_out, h)

  copied_split :
      (k : ℕ) (pending : List ℕ) (fh : Decrypter) (h : Holds pending fh)
      → copied k fh ++ cap (advanced k fh).limit (window (advanced k fh) ++ h.rest) ≡ pending
  unfolding copied advanced
  copied_split k pending fh h =
      let d = length (take k (cap fh.limit (window fh))) in
      ap (λ w. take k (cap fh.limit (window fh)) ++ cap (spend fh.limit d) (w ++ h.rest))
        (slice_rest d fh.buf_index fh.buf_size fh.buf)
      ∙ cap_split fh.limit k (window fh) h.rest
      ∙ h.holds

  advanced-Holds :
      (k : ℕ) (pending : List ℕ) (fh : Decrypter) (h : Holds pending fh)
      → Holds (cap (advanced k fh).limit (window (advanced k fh) ++ h.rest)) (advanced k fh)
  unfolding advanced
  advanced-Holds k pending fh h = record {
    rest = h.rest;
    alive = h.alive;
    fits = h.fits;
    ends = h.ends;
    blocks = h.blocks;
    holds = refl;
  }

  advanced-alive : (k : ℕ) (fh : Decrypter) → fh.failure ≡ none → (advanced k fh).failure ≡ none
  unfolding advanced
  advanced-alive k fh alive = alive

  advanced-limit :
      (k : ℕ) (fh : Decrypter) → (advanced k fh).limit ≡ spend fh.limit (length (copied k fh))
  unfolding advanced copied
  advanced-limit k fh = refl

  copy_out-Serves :
      (k : ℕ) (pending : List ℕ) (fh : Decrypter)
      → 0 < k
      → Holds pending fh
      → fh.buf_index < fh.buf_size
      → Serves (read box) Holds eof pending (copy_out k fh)
  copy_out-Serves k pending fh hk h room =
      elim (Bool-cases (is_spent (spend fh.limit (length (copied k fh))))) [
        | inl spent ↦
            let nothing =
              spent_nothing (advanced k fh).limit (window (advanced k fh) ++ h.rest)
                (ap is_spent (advanced-limit k fh) ∙ spent) in
            rw (copy_out_spent k fh spent) (record {
              rest = [];
              split = ap (◌++◌ (copied k fh)) (sym nothing) ∙ copied_split k pending fh h;
              outcome =
                  inr (
                    ap some (finish_first eof (advanced k fh) (advanced-alive k fh h.alive)),
                    refl,
                  );
            })
        | inr more ↦ rw (copy_out_more k fh more) (record {
          rest = cap (advanced k fh).limit (window (advanced k fh) ++ h.rest);
          split = copied_split k pending fh h;
          outcome =
              inl (refl, advanced-Holds k pending fh h, some_copied k pending fh hk h room more);
        })
      ]

  -- What is pending when the buffer is used up.
  Holds-rest :
      (pending : List ℕ) (fh : Decrypter) (h : Holds pending fh)
      → fh.buf_size ≤ fh.buf_index
      → cap fh.limit h.rest ≡ pending
  Holds-rest pending fh h used =
      let none_left : fh.buf_size - fh.buf_index ≡ 0 = omega arith in
      ap (λ w. cap fh.limit (w ++ h.rest))
        (sym (
          ap (λ m. take m (drop fh.buf_index fh.buf)) none_left
          ∙ take_zero (drop fh.buf_index fh.buf)))
      ∙ h.holds

  -- Blocks of a plaintext, with nothing in the buffer.
  pub record Feeds (rest : List ℕ) (fh : Decrypter) : Type 0 where
    pub alive : fh.failure ≡ none
    pub ends : fh.rc.tail ≡ eof
    pub blocks : fh.rc.bytes ≡ body box fh.key fh.nonce rest

  feeding :
      (rest : List ℕ) (fh : Decrypter)
      → fh.failure ≡ none
      → fh.rc.tail ≡ eof
      → fh.rc.bytes ≡ body box fh.key fh.nonce rest
      → Feeds rest fh
  feeding rest fh a e b = record { alive = a; ends = e; blocks = b }

  -- The decrypter once `fillBuffer` has opened a block.
  unfoldable pub filled : List ℕ → Decrypter → Decrypter
  filled message fh = record fh {
    rc = (read_fill block_size fh.rc).2;
    nonce = increment fh.nonce;
    buf = message;
    buf_index = 0;
    buf_size = length (read_fill block_size fh.rc).0 - block_header_size;
  }

  first_block :
      (rest : List ℕ) (fh : Decrypter)
      → Feeds rest fh
      → 0 < length rest
      → (read_fill block_size fh.rc).0 ≡ box.seal fh.key fh.nonce (take block_data_size rest)
  first_block rest fh f more =
      (read_fill-Filled block_size fh.rc).got
      ∙ ap (take block_size) f.blocks
      ∙ take-body box fh.key 1 fh.nonce rest
      ∙ body-last box fh.key fh.nonce (take block_data_size rest)
          (λ e. absurd (omega (arith, ap length e, length-take block_data_size rest)))
          (omega (arith, length-take block_data_size rest))

  opens :
      (fh : Decrypter) (message : List ℕ)
      → (read_fill block_size fh.rc).0 ≡ box.seal fh.key fh.nonce message
      → unseal box (read_fill block_size fh.rc) fh ≡ (none, filled message fh)
  unfolding unseal filled
  opens fh message block =
      rw (
        ap (box.open_box fh.key fh.nonce) block ∙ box.open_box-seal fh.key fh.nonce message,
        unseal,
      )

  -- `fillBuffer` at the end of the blocks, and at a block.
  fill_buffer_end :
      (fh : Decrypter)
      → Feeds [] fh
      → (fh' : Decrypter) × (fill_buffer box fh ≡ (some eof, fh')) × (fh'.failure ≡ none)
  unfolding fill_buffer
  fill_buffer_end fh f =
      let g = read_fill-Filled block_size fh.rc in
      let empty = f.blocks ∙ body-nil box fh.key fh.nonce in
      (
        record fh { rc = (read_fill block_size fh.rc).2 },
        rw (
          ==_true (length (read_fill block_size fh.rc).0) 0
              (omega (arith, ap length g.got, length-take block_size fh.rc.bytes, ap length empty)),
          g.short (omega (arith, ap length empty)),
          f.ends,
        ),
        f.alive,
      )

  pub fill_buffer_block :
      (rest : List ℕ) (fh : Decrypter)
      → Feeds rest fh
      → 0 < length rest
      → fill_buffer box fh ≡ (none, filled (take block_data_size rest) fh)
  unfolding fill_buffer filled
  fill_buffer_block rest fh f more =
      let block = first_block rest fh f more in
      let message = take block_data_size rest in
      let size = box.length-seal fh.key fh.nonce message in
      let long : block_header_size < length (read_fill block_size fh.rc).0 =
        omega (arith, ap length block, size, length-take block_data_size rest) in
      rw
        (
          ==_false (length (read_fill block_size fh.rc).0) 0 (λ e. absurd (omega arith)),
          leb-false long,
        )
        (opens fh message block)

  pub filled-size :
      (rest : List ℕ) (fh : Decrypter)
      → Feeds rest fh
      → 0 < length rest
      → (filled (take block_data_size rest) fh).buf_size ≡ length (take block_data_size rest)
  unfolding filled
  filled-size rest fh f more = omega (
    arith,
    ap length (first_block rest fh f more),
    box.length-seal fh.key fh.nonce (take block_data_size rest),
  )

  -- What the opened block leaves to read from a position in it: the rest of its message, and the
  -- plaintext behind it.
  pub filled-Holds :
      (rest : List ℕ) (discard : ℕ) (limit : ℤ) (fh : Decrypter)
      → Feeds rest fh
      → 0 < length rest
      → discard ≤ length (take block_data_size rest)
      → Holds
          (cap limit (drop discard rest))
          (record (filled (take block_data_size rest) fh) { buf_index = discard; limit = limit })
  unfolding filled
  filled-Holds rest discard limit fh f more small =
      let message = take block_data_size rest in
      let g = read_fill-Filled block_size fh.rc in
      let sealed = box.length-seal fh.key fh.nonce message in
      let fits = ap length (first_block rest fh f more) in
      let behind = length (read_fill block_size fh.rc).0 - block_header_size - discard in
      record {
        rest = drop block_data_size rest;
        alive = f.alive;
        fits = omega (arith, fits, sealed);
        ends = g.left.same_tail ∙ f.ends;
        blocks =
            g.left.bytes_left
            ∙ ap (drop block_size) f.blocks
            ∙ drop-body box fh.key 1 fh.nonce rest;
        holds = ap (cap limit) (
            ap (λ w. w ++ drop block_data_size rest)
              (take_all behind (drop discard message)
                (omega (arith, fits, sealed, length-drop discard message)))
            ∙ sym (drop-append_le discard message (drop block_data_size rest) small)
            ∙ ap (drop discard) (take-append-drop block_data_size rest));
      }

  unmoved :
      (rest : List ℕ) (fh : Decrypter) {pending : List ℕ}
      → Holds pending
          (record (filled (take block_data_size rest) fh) { buf_index = 0; limit = fh.limit })
      → Holds pending (filled (take block_data_size rest) fh)
  unfolding filled
  unmoved rest fh h = h

  filled-room :
      (rest : List ℕ) (fh : Decrypter)
      → Feeds rest fh
      → 0 < length rest
      → let fh' = filled (take block_data_size rest) fh in fh'.buf_index < fh'.buf_size
  unfolding filled
  filled-room rest fh f more = omega (
    arith,
    ap length (first_block rest fh f more),
    box.length-seal fh.key fh.nonce (take block_data_size rest),
    length-take block_data_size rest,
  )

  -- The three ways through `Read`.
  read_room :
      (k : ℕ) (fh : Decrypter)
      → fh.failure ≡ none
      → fh.buf_index < fh.buf_size
      → read box k fh ≡ copy_out k fh
  unfolding read
  read_room k fh alive room = rw (alive, leb-false room)

  read_used :
      (k : ℕ) (fh : Decrypter)
      → fh.failure ≡ none
      → fh.buf_size ≤ fh.buf_index
      → read box k fh ≡ after_fill box k (fill_buffer box fh)
  unfolding read
  read_used k fh alive used = rw (alive, leb-true used)

  read-refill :
      (k : ℕ) (fh fh' : Decrypter)
      → fh.failure ≡ none
      → fh.buf_size ≤ fh.buf_index
      → fill_buffer box fh ≡ (none, fh')
      → read box k fh ≡ copy_out k fh'
  unfolding after_fill
  read-refill k fh fh' alive used e = read_used k fh alive used ∙ ap (after_fill box k) e

  read_failed :
      (k : ℕ) (fh fh' : Decrypter) (x : Error)
      → fh.failure ≡ none
      → fh.buf_size ≤ fh.buf_index
      → fill_buffer box fh ≡ (some x, fh')
      → read box k fh ≡ ([], some (finish x fh').0, (finish x fh').1)
  unfolding after_fill
  read_failed k fh fh' x alive used e = read_used k fh alive used ∙ ap (after_fill box k) e

  cap-nil : (limit : ℤ) → cap limit [] ≡ []
  cap-nil (pos l) = take-nil l
  cap-nil (negsuc l) = refl

  -- Each `Read` into a buffer that is not empty serves what is pending.
  pub read-Serves :
      (k : ℕ) (pending : List ℕ) (fh : Decrypter)
      → 0 < k
      → Holds pending fh
      → Serves (read box) Holds eof pending (read box k fh)
  read-Serves k pending fh hk h = elim (dec_lt fh.buf_index fh.buf_size) [
    | yes room ↦ rw (read_room k fh h.alive room) (copy_out-Serves k pending fh hk h room)
    | no full ↦ elim (List-cases h.rest) [
      | inl none_left ↦
          let (fh', e, alive') =
            fill_buffer_end fh
              (subst (λ r. Feeds r fh) none_left (feeding h.rest fh h.alive h.ends h.blocks)) in
          rw (read_failed k fh fh' eof h.alive (omega arith) e) (record {
            rest = [];
            split =
                sym (cap-nil fh.limit)
                ∙ ap (cap fh.limit) (sym none_left)
                ∙ Holds-rest pending fh h (omega arith);
            outcome = inr (ap some (finish_first eof fh' alive'), refl);
          })
      | inr (b, bs, e) ↦
          let f = feeding h.rest fh h.alive h.ends h.blocks in
          let more : 0 < length h.rest = omega (arith, ap length e) in
          rw (read-refill k fh _ h.alive (omega arith) (fill_buffer_block h.rest fh f more)) (
            copy_out-Serves k pending _ hk
              (subst (λ p. Holds p (filled (take block_data_size h.rest) fh))
                (ap (cap fh.limit) (drop_zero h.rest) ∙ Holds-rest pending fh h (omega arith))
                (unmoved h.rest fh (filled-Holds h.rest 0 fh.limit fh f more (omega arith))))
              (filled-room h.rest fh f more))
    ]
  ]
