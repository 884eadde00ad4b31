-- ===== src/Hash/Blocks.antt =====
-- The hasher against the stream cut into blocks.
use teldrive_easy.Prelude.{
  ℕ, zero, suc, ◌-◌, ◌<◌, ◌≤◌, ◌≡◌, refl, sym, ap, ap₂, ◌∙◌, subst, List, [], ◌∷◌, ◌++◌, take, drop,
  length, min, map, arith, dec_lt, leb-true, leb-false, ltb-true, ltb-false, length-append,
  length-take, length-drop, append_assoc, append-nil, take-append-drop, if◌then◌else◌, ◌==◌,
  ==_true, ==_false, ℕ_discrete, inl, inr, length-eq-zero, List-cases,
}
use teldrive_easy.Hash.{
  BlockHasher, block_size, new_block_hasher, write, write_loop, write_some, close_full, to_write,
  finish, sum, concat,
}

abbrev pub AllSized : ℕ → List (List ℕ) → Type 0
AllSized size [] = 0 ≤ 0
AllSized size (b ∷ bs) = (length b ≡ size) × AllSized size bs

AllSized-append :
    (size : ℕ) (bs : List (List ℕ)) (b : List ℕ)
    → AllSized size bs
    → length b ≡ size
    → AllSized size (bs ++ b ∷ [])
AllSized-append size [] b h e = (e, omega arith)
AllSized-append size (c ∷ bs) b (h, hs) e = (h, AllSized-append size bs b hs e)

concat-append : (bs : List (List ℕ)) (b : List ℕ) → concat (bs ++ b ∷ []) ≡ concat bs ++ b
unfolding concat
concat-append [] b = append-nil b
concat-append (c ∷ bs) b = ap (◌++◌ c) (concat-append bs b) ∙ sym (append_assoc c (concat bs) b)

module _ (blake3 : List ℕ → List ℕ) where
  map-append :
      (bs : List (List ℕ)) (b : List ℕ) → map blake3 (bs ++ b ∷ []) ≡ map blake3 bs ++ blake3 b ∷ []
  map-append [] b = refl
  map-append (c ∷ bs) b = ap (◌∷◌ (blake3 c)) (map-append bs b)

  -- The hasher was given `data`: whole blocks that are hashed, and a part of one.
  record Given (size : ℕ) (data_ : List ℕ) (h : BlockHasher) : Type 0 where
    blocks : List (List ℕ)
    part : List ℕ
    sized : AllSized size blocks
    joined : concat blocks ++ part ≡ data_
    hashed : h.block_hashes ≡ map blake3 blocks
    held : length part ≡ h.bytes_in_block
    short : h.bytes_in_block < size
    same_size : h.block_size ≡ size
    current : 0 < h.bytes_in_block → h.current_hash ≡ part

  -- The same before the end of a turn, where the block may be full.
  record Filled (size : ℕ) (data_ : List ℕ) (h : BlockHasher) : Type 0 where
    blocks : List (List ℕ)
    sized : AllSized size blocks
    joined : concat blocks ++ h.current_hash ≡ data_
    hashed : h.block_hashes ≡ map blake3 blocks
    held : length h.current_hash ≡ h.bytes_in_block
    fits : h.bytes_in_block ≤ size
    same_size : h.block_size ≡ size

  close_full-Given :
      (size : ℕ) (data_ : List ℕ) (h : BlockHasher)
      → 0 < size
      → Filled size data_ h
      → Given size data_ (close_full blake3 h)
  unfolding close_full
  close_full-Given size data_ h pos g = elim (dec_lt h.bytes_in_block h.block_size) [
    | yes less ↦ rw (leb-false {a = h.block_size} {b = h.bytes_in_block} less) (record {
      blocks = g.blocks;
      part = h.current_hash;
      sized = g.sized;
      joined = g.joined;
      hashed = g.hashed;
      held = g.held;
      short = omega (arith, g.same_size);
      same_size = g.same_size;
      current = λ _. refl;
    })
    | no full ↦ rw (leb-true {a = h.block_size} {b = h.bytes_in_block} (omega arith)) (record {
      blocks = g.blocks ++ h.current_hash ∷ [];
      part = [];
      sized =
          AllSized-append size g.blocks h.current_hash g.sized
            (omega (arith, g.held, g.fits, g.same_size));
      joined =
          append-nil (concat (g.blocks ++ h.current_hash ∷ []))
          ∙ concat-append g.blocks h.current_hash
          ∙ g.joined;
      hashed =
          ap (λ hs. hs ++ blake3 h.current_hash ∷ []) g.hashed
          ∙ sym (map-append g.blocks h.current_hash);
      held = refl;
      short = pos;
      same_size = g.same_size;
      current = λ x. absurd (omega arith);
    })
  ]

  -- What the running hash holds, where a new block begins with a new one.
  running :
      (size : ℕ) (data_ : List ℕ) (h : BlockHasher) (g : Given size data_ h)
      → (if h.bytes_in_block == 0 then [] else h.current_hash) ≡ g.part
  running size data_ h g = elim (ℕ_discrete h.bytes_in_block 0) [
    | yes e ↦
        ap (λ b. if b then [] else h.current_hash) (==_true h.bytes_in_block 0 e)
        ∙ sym (length-eq-zero g.part (g.held ∙ e))
    | no n ↦
        ap (λ b. if b then [] else h.current_hash) (==_false h.bytes_in_block 0 n)
        ∙ g.current (omega arith)
  ]

  write_some-Given :
      (size : ℕ) (data_ p : List ℕ) (h : BlockHasher)
      → Given size data_ h
      → Given size (data_ ++ take (to_write blake3 h p) p) (write_some blake3 p h)
  unfolding write_some to_write
  write_some-Given size data_ p h g =
      let k = min (length p) (h.block_size - h.bytes_in_block) in
      let holds = running size data_ h g in
      close_full-Given size (data_ ++ take k p) _ (omega (arith, g.short)) (record {
        blocks = g.blocks;
        sized = g.sized;
        joined =
            ap (λ c. concat g.blocks ++ (c ++ take k p)) holds
            ∙ sym (append_assoc (concat g.blocks) g.part (take k p))
            ∙ ap (λ d. d ++ take k p) g.joined;
        hashed = g.hashed;
        held =
            ap (λ c. length (c ++ take k p)) holds
            ∙ omega (arith, length-append g.part (take k p), length-take k p, g.held);
        fits = omega (arith, g.same_size, g.short);
        same_size = g.same_size;
      })

  to_write_pos :
      (size : ℕ) (data_ : List ℕ) (x : ℕ) (p : List ℕ) (h : BlockHasher)
      → Given size data_ h
      → 0 < to_write blake3 h (x ∷ p)
  unfolding to_write
  to_write_pos size data_ x p h g = omega (arith, g.short, g.same_size)

  write_loop-Given :
      (fuel size : ℕ) (data_ p : List ℕ) (h : BlockHasher)
      → length p ≤ fuel
      → Given size data_ h
      → Given size (data_ ++ p) (write_loop blake3 fuel p h)
  unfolding write_loop
  write_loop-Given zero size data_ p h enough g =
      subst (λ d. Given size d h)
        (sym (ap (◌++◌ data_) (length-eq-zero p (omega arith)) ∙ append-nil data_)) g
  write_loop-Given (suc fuel) size data_ [] h enough g =
      subst (λ d. Given size d h) (sym (append-nil data_)) g
  write_loop-Given (suc fuel) size data_ (x ∷ p) h enough g =
      let k = to_write blake3 h (x ∷ p) in
      subst
        (λ d. Given size d (write_loop blake3 fuel (drop k (x ∷ p)) (write_some blake3 (x ∷ p) h)))
        (append_assoc data_ (take k (x ∷ p)) (drop k (x ∷ p))
          ∙ ap (◌++◌ data_) (take-append-drop k (x ∷ p)))
        (write_loop-Given fuel size (data_ ++ take k (x ∷ p)) (drop k (x ∷ p))
          (write_some blake3 (x ∷ p) h)
          (omega (arith, length-drop k (x ∷ p), to_write_pos size data_ x p h g))
          (write_some-Given size data_ (x ∷ p) h g))

  -- Several writes, one after the other.
  unfoldable pub writes : List (List ℕ) → BlockHasher → BlockHasher
  writes [] h = h
  writes (p ∷ ps) h = writes ps (write blake3 p h).1

  writes-Given :
      (size : ℕ) (data_ : List ℕ) (ps : List (List ℕ)) (h : BlockHasher)
      → Given size data_ h
      → Given size (data_ ++ concat ps) (writes ps h)
  unfolding writes write concat
  writes-Given size data_ [] h g = subst (λ d. Given size d h) (sym (append-nil data_)) g
  writes-Given size data_ (p ∷ ps) h g =
      subst (λ d. Given size d (writes ps (write_loop blake3 (length p) p h)))
        (append_assoc data_ p (concat ps))
        (writes-Given size (data_ ++ p) ps (write_loop blake3 (length p) p h)
          (write_loop-Given (length p) size data_ p h (omega arith) g))

  new-Given : Given block_size [] new_block_hasher
  unfolding new_block_hasher concat
  new-Given = record {
    blocks = [];
    part = [];
    sized = omega arith;
    joined = refl;
    hashed = refl;
    held = refl;
    short = omega arith;
    same_size = refl;
    current = λ x. absurd (omega arith);
  }

  -- The hashes of blocks, and of what follows the last one unless it is empty.
  abbrev pub tail_hash : List ℕ → List (List ℕ)
  tail_hash [] = []
  tail_hash (x ∷ xs) = blake3 (x ∷ xs) ∷ []

  finish-Given :
      (size : ℕ) (data_ : List ℕ) (h : BlockHasher) (g : Given size data_ h)
      → (finish blake3 h).block_hashes ≡ map blake3 g.blocks ++ tail_hash g.part
  unfolding finish
  finish-Given size data_ h g = elim (List-cases g.part) [
    | inl e ↦ rw (ltb-false {a = 0} {b = h.bytes_in_block} (omega (arith, g.held, ap length e))) (
        g.hashed
        ∙ sym (append-nil (map blake3 g.blocks))
        ∙ ap (λ t. map blake3 g.blocks ++ tail_hash t) (sym e))
    | inr (x, xs, e) ↦
        let some_byte : 0 < h.bytes_in_block = omega (arith, g.held, ap length e) in
        rw (ltb-true {a = 0} {b = h.bytes_in_block} some_byte) (
          ap₂ (λ hs c. hs ++ blake3 c ∷ []) g.hashed (g.current some_byte ∙ e)
          ∙ ap (λ t. map blake3 g.blocks ++ tail_hash t) (sym e))
  ]

  -- However a stream is split into writes, `Sum` is the hashes, one after the other, of the 16 MiB
  -- blocks that the whole stream is cut into, with one more for the bytes behind the last whole
  -- block where there are any.
  pub sum-writes :
      (ps : List (List ℕ))
      → (blocks : List (List ℕ)) × (part : List ℕ) × (concat blocks ++ part ≡ concat ps)
        × AllSized block_size blocks
        × (length part < block_size)
        × ((sum blake3 (writes ps new_block_hasher)).0
            ≡ concat (map blake3 blocks ++ tail_hash part))
  unfolding sum
  sum-writes ps =
      let g = writes-Given block_size [] ps new_block_hasher new-Given in
      (
        g.blocks,
        g.part,
        g.joined,
        g.sized,
        omega (arith, g.held, g.short),
        ap concat (finish-Given block_size (concat ps) (writes ps new_block_hasher) g),
      )
