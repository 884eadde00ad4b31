-- ===== src/Crypt/Box/Blocks.antt =====
-- Taking the encrypted blocks of a file apart.
use teldrive_easy.Prelude.{
  ℕ, zero, suc, ◌*◌, ◌≤◌, ◌≡◌, refl, sym, ap, ap₂, ◌∙◌, List, [], ◌∷◌, ◌++◌, length, take, drop,
  arith, length-drop, length-append, length-take, dec_lt, take_all, drop_all, append-nil,
  List-cases, ◌⊎◌, inl, inr, take-append-drop, take_zero, drop_zero, drop-append_add,
  take-append_add, take-append_le, drop-append_le, ◌≢◌,
}
use teldrive_easy.Crypt.Nonce.{Nonce, increment}
use teldrive_easy.Crypt.Nonce.Value.{increments, increments-increment}
use teldrive_easy.Crypt.Size.{block_data_size, block_size}
use teldrive_easy.Crypt.Box.{SecretBox, seal_blocks, body}

drop_none : (xs : List ℕ) → drop (0 * block_size) xs ≡ xs
drop_none xs = drop_zero xs

take_none : (xs : List ℕ) → take (0 * block_size) xs ≡ []
take_none xs = take_zero xs

module _ (box : SecretBox) (key : List ℕ) where
  open box use {seal, length-seal}

  -- Any fuel from the plaintext's length on gives the same blocks.
  seal_blocks-fuel :
      (f g : ℕ) (n : Nonce) (p : List ℕ)
      → length p ≤ f
      → length p ≤ g
      → seal_blocks box key f n p ≡ seal_blocks box key g n p
  unfolding seal_blocks
  seal_blocks-fuel zero zero n p hf hg = refl
  seal_blocks-fuel zero (suc g) n [] hf hg = refl
  seal_blocks-fuel zero (suc g) n (b ∷ bs) hf hg = absurd (omega arith)
  seal_blocks-fuel (suc f) zero n [] hf hg = refl
  seal_blocks-fuel (suc f) zero n (b ∷ bs) hf hg = absurd (omega arith)
  seal_blocks-fuel (suc f) (suc g) n [] hf hg = refl
  seal_blocks-fuel (suc f) (suc g) n (b ∷ bs) hf hg =
      ap (◌++◌ (seal key n (take block_data_size (b ∷ bs)))) (
        seal_blocks-fuel f g (increment n) (drop block_data_size (b ∷ bs))
          (omega (arith, length-drop block_data_size (b ∷ bs)))
          (omega (arith, length-drop block_data_size (b ∷ bs))))

  pub body-nil : (n : Nonce) → body box key n [] ≡ []
  unfolding body
  body-nil n = refl

  -- The first block, and the blocks of what is left under the next nonce.
  pub body-step :
      (n : Nonce) (p : List ℕ)
      → p ≢ []
      → body box key n p
        ≡ seal key n (take block_data_size p) ++ body box key (increment n) (drop block_data_size p)
  unfolding body seal_blocks
  body-step n [] h = absurd (h refl)
  body-step n (b ∷ bs) h = ap (◌++◌ (seal key n (take block_data_size (b ∷ bs)))) (
      seal_blocks-fuel (length bs) (length (drop block_data_size (b ∷ bs))) (increment n)
        (drop block_data_size (b ∷ bs)) (omega (arith, length-drop block_data_size (b ∷ bs)))
        (omega arith))

  -- A whole block in front, and the blocks behind it.
  body-full :
      (n : Nonce) (a q : List ℕ)
      → length a ≡ block_data_size
      → body box key n (a ++ q) ≡ seal key n a ++ body box key (increment n) q
  body-full n a q h =
      body-step n (a ++ q) (λ e. absurd (omega (arith, ap length e, length-append a q)))
      ∙ ap₂ (λ x y. seal key n x ++ body box key (increment n) y)
          (take-append_le block_data_size a q (omega arith)
            ∙ take_all block_data_size a (omega arith))
          (drop-append_le block_data_size a q (omega arith)
            ∙ ap (λ x. x ++ q) (drop_all block_data_size a (omega arith)))

  -- The last block may be shorter.
  pub body-last :
      (n : Nonce) (p : List ℕ)
      → p ≢ []
      → length p ≤ block_data_size
      → body box key n p ≡ seal key n p
  body-last n p h l =
      body-step n p h
      ∙ ap₂ (λ x y. seal key n x ++ body box key (increment n) y) (take_all block_data_size p l)
          (drop_all block_data_size p l)
      ∙ ap (◌++◌ (seal key n p)) (body-nil (increment n))
      ∙ append-nil (seal key n p)

  -- A plaintext is at most one block, or a whole block and more.
  split_block :
      (p : List ℕ)
      → (length p ≤ block_data_size)
        ⊎ ((a : List ℕ) × (q : List ℕ) × (p ≡ a ++ q) × (length a ≡ block_data_size))
  split_block p = elim (dec_lt block_data_size (length p)) [
    | no short ↦ inl (omega arith)
    | yes long ↦ inr (
      take block_data_size p,
      drop block_data_size p,
      sym (take-append-drop block_data_size p),
      omega (arith, length-take block_data_size p),
    )
  ]

  drop_block :
      (k : ℕ) (n : Nonce) (a q : List ℕ)
      → length a ≡ block_data_size
      → drop (suc k * block_size) (body box key n (a ++ q))
        ≡ drop (k * block_size) (body box key (increment n) q)
  drop_block k n a q h =
      ap₂ drop (omega (arith, length-seal key n a)) (body-full n a q h)
      ∙ drop-append_add (seal key n a) (body box key (increment n) q) (k * block_size)

  take_block :
      (k : ℕ) (n : Nonce) (a q : List ℕ)
      → length a ≡ block_data_size
      → take (suc k * block_size) (body box key n (a ++ q))
        ≡ seal key n a ++ take (k * block_size) (body box key (increment n) q)
  take_block k n a q h =
      ap₂ take (omega (arith, length-seal key n a)) (body-full n a q h)
      ∙ take-append_add (seal key n a) (body box key (increment n) q) (k * block_size)

  length-body_last :
      (n : Nonce) (p : List ℕ) → length p ≤ block_data_size → length (body box key n p) ≤ block_size
  length-body_last n p l = elim (List-cases p) [
    | inl e ↦ rw (e, body-nil n) (omega arith)
    | inr (b, bs, e) ↦ rw (body-last n p (λ e'. cc) l) (omega (arith, length-seal key n p))
  ]

  -- Behind `k` blocks come the blocks of the plaintext that is left, under the nonce that `k`
  -- increments reach.
  pub drop-body :
      (k : ℕ) (n : Nonce) (p : List ℕ)
      → drop (k * block_size) (body box key n p)
        ≡ body box key (increments k n) (drop (k * block_data_size) p)
  drop-body zero n p = drop_none _ ∙ sym (ap (body box key n) (drop_none p))
  drop-body (suc k) n p = elim (split_block p) [
    | inl short ↦
        drop_all (suc k * block_size) (body box key n p) (omega (arith, length-body_last n p short))
        ∙ sym (body-nil (increments (suc k) n))
        ∙ ap (body box key (increments (suc k) n))
            (sym (drop_all (suc k * block_data_size) p (omega arith)))
    | inr (a, q, e, l) ↦ rw e (
        drop_block k n a q l
        ∙ drop-body k (increment n) q
        ∙ ap₂ (body box key) (increments-increment k n) (
            sym (drop-append_add a q (k * block_data_size))
            ∙ ap (λ m. drop m (a ++ q)) (omega arith)))
  ]

  -- The first `k` blocks hold the first `k` pieces of the plaintext.
  pub take-body :
      (k : ℕ) (n : Nonce) (p : List ℕ)
      → take (k * block_size) (body box key n p) ≡ body box key n (take (k * block_data_size) p)
  take-body zero n p = take_none _ ∙ sym (body-nil n) ∙ ap (body box key n) (sym (take_none p))
  take-body (suc k) n p = elim (split_block p) [
    | inl short ↦
        take_all (suc k * block_size) (body box key n p) (omega (arith, length-body_last n p short))
        ∙ ap (body box key n) (sym (take_all (suc k * block_data_size) p (omega arith)))
    | inr (a, q, e, l) ↦ rw e (
        take_block k n a q l
        ∙ ap (◌++◌ (seal key n a)) (take-body k (increment n) q)
        ∙ sym (body-full n a (take (k * block_data_size) q) l)
        ∙ ap (body box key n) (
            sym (take-append_add a q (k * block_data_size))
            ∙ ap (λ m. take m (a ++ q)) (omega arith)))
  ]
