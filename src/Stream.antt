-- ===== src/Stream.antt =====
-- Reading an `io.Reader` to its end, as `io.ReadAll` and `io.Copy` do: the readers of
-- internal/crypt and internal/reader are judged by what such a loop collects.
use teldrive_easy.Prelude.{
  ℕ, ◌<◌, ◌≡◌, sym, ap, ◌∙◌, ◌⊎◌, inl, inr, List, [], ◌∷◌, ◌++◌, Option, none, some, length, arith,
  append-nil, length-append,
}

module _ {ℓ κ} {S : Type ℓ} {E : Type κ} (read : ℕ → S → List ℕ × Option E × S) where
  -- One `Read` for each buffer size, up to the first error.
  unfoldable pub read_all : List ℕ → S → List ℕ × Option E × S
  read_all [] s = ([], none, s)
  read_all (k ∷ ks) s =
      let (bytes, e, s') = read k s in
      let (more, e', s'') = read_all ks s' in
      elim e [ some x ↦ (bytes, some x, s') | none ↦ (bytes ++ more, e', s'') ]

  -- What one read does to a state that has `pending` to give before the error `last`: it gives a
  -- part of it, and goes on or reports that error behind the whole.
  pub record Serves {μ} (P : List ℕ → S → Type μ) (last : E) (pending : List ℕ)
      (r : List ℕ × Option E × S) : Type (ℓ ⊔ κ ⊔ μ) where
    pub rest : List ℕ
    pub split : r.0 ++ rest ≡ pending
    pub outcome : ((r.1 ≡ none) × P rest r.2 × (0 < length r.0)) ⊎ ((r.1 ≡ some last) × (rest ≡ []))

abbrev pub AllPositive : List ℕ → Type 0
AllPositive [] = Unit {0}
AllPositive (k ∷ ks) = (0 < k) × AllPositive ks

module _ {ℓ κ} {S : Type ℓ} {E : Type κ} (read : ℕ → S → List ℕ × Option E × S) where
  pub read_all-next :
      (k : ℕ) (ks : List ℕ) (s : S)
      → (read k s).1 ≡ none
      → (read_all read (k ∷ ks) s).0 ≡ (read k s).0 ++ (read_all read ks (read k s).2).0
  unfolding read_all
  read_all-next k ks s h = rw (h, read_all)

  pub read_all-next_err :
      (k : ℕ) (ks : List ℕ) (s : S)
      → (read k s).1 ≡ none
      → (read_all read (k ∷ ks) s).1 ≡ (read_all read ks (read k s).2).1
  unfolding read_all
  read_all-next_err k ks s h = rw (h, read_all)

  pub read_all-last :
      (k : ℕ) (ks : List ℕ) (s : S) {x : E}
      → (read k s).1 ≡ some x
      → ((read_all read (k ∷ ks) s).0 ≡ (read k s).0) × ((read_all read (k ∷ ks) s).1 ≡ some x)
  unfolding read_all
  read_all-last k ks s h = (rw (h, read_all), rw (h, read_all))

  -- If every read serves what is pending, the loop collects all of it, and ends with the error,
  -- given a non-empty buffer for each pending byte and one more.
  pub read_all-collects {μ} :
      (P : List ℕ → S → Type μ) (last : E)
      → ((k : ℕ) (pending : List ℕ) (s : S)
          → 0 < k
          → P pending s
          → Serves read P last pending (read k s))
      → (ks : List ℕ) (pending : List ℕ) (s : S) → AllPositive ks
      → length pending < length ks
      → P pending s
      → ((read_all read ks s).0 ≡ pending) × ((read_all read ks s).1 ≡ some last)
  read_all-collects P last serve [] pending s pos enough p = absurd (omega arith)
  read_all-collects P last serve (k ∷ ks) pending s pos enough p =
      let v = serve k pending s pos.0 p in
      elim v.outcome [
        | inr (e, none_left) ↦
            let (bytes, err) = read_all-last k ks s e in
            (bytes ∙ sym (append-nil _) ∙ ap (◌++◌ (read k s).0) (sym none_left) ∙ v.split, err)
        | inl (e, p', got) ↦
            let (bytes, err) =
              read_all-collects P last serve ks v.rest (read k s).2 pos.1
                (omega (arith, ap length v.split, length-append (read k s).0 v.rest)) p' in
            (
              read_all-next k ks s e ∙ ap (◌++◌ (read k s).0) bytes ∙ v.split,
              read_all-next_err k ks s e ∙ err,
            )
      ]
