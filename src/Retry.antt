-- ===== src/Retry.antt =====
-- internal/retry/retry.go: calls to Telegram that fail for some time are made again.
use teldrive_easy.Prelude.{
  ℕ, zero, suc, ◌+◌, ◌<◌, ◌≡◌, inl, inr, refl, sym, subst, Bool, true, false, ◌||◌, Option, none,
  some, if◌then◌else◌, arith, Bool-cases, Option-cases, ℕ_discrete,
}

-- Errors are known by number. `skipped` is the wrapped error that is not retried.
pub data Outcome : Type 0 where
  done limit_reached : Outcome
  skipped : ℕ → Outcome

-- `tgerr.Is` for the codes of the middleware, and `isErrorMatch`.
module _ (telegram_error error_match : ℕ → Bool) where
  abbrev pub is_retried : ℕ → Bool
  is_retried e = telegram_error e || error_match e

  -- The loop of `Handle` with so many attempts left; `invoke` is the outcome of each attempt, `none`
  -- a success. The number says how often it was invoked.
  unfoldable pub attempts : (left : ℕ) → (ℕ → Option ℕ) → (retries : ℕ) → Outcome × ℕ
  attempts zero invoke retries = (limit_reached, retries)
  attempts (suc left) invoke retries =
      let rest = attempts left invoke (retries + 1) in
      elim (invoke retries) [
        | none ↦ (done, retries + 1)
        | some e ↦ if is_retried e then rest else (skipped e, retries + 1)
      ]

  unfoldable pub handle : (max : ℕ) → (ℕ → Option ℕ) → Outcome × ℕ
  handle max invoke = attempts max invoke 0

  -- How a run can end after `n` attempts that were retried.
  pub data Ends (invoke : ℕ → Option ℕ) (max n : ℕ) : Outcome × ℕ → Type 0 where
    gives_up : n ≡ max → Ends invoke max n (limit_reached, n)
    succeeds : n < max → invoke n ≡ none → Ends invoke max n (done, n + 1)
    fails :
        {e : ℕ}
        → n < max
        → invoke n ≡ some e
        → is_retried e ≡ false
        → Ends invoke max n (skipped e, n + 1)

  abbrev pub Retried : (ℕ → Option ℕ) → ℕ → Type 0
  Retried invoke i = (e : ℕ) × (invoke i ≡ some e) × (is_retried e ≡ true)

  attempts_done :
      (left : ℕ) (invoke : ℕ → Option ℕ) (retries : ℕ)
      → invoke retries ≡ none
      → attempts (suc left) invoke retries ≡ (done, retries + 1)
  unfolding attempts
  attempts_done left invoke retries e = rw (e, attempts) refl

  attempts_failed :
      (left : ℕ) (invoke : ℕ → Option ℕ) (retries e : ℕ)
      → invoke retries ≡ some e
      → is_retried e ≡ false
      → attempts (suc left) invoke retries ≡ (skipped e, retries + 1)
  unfolding attempts
  attempts_failed left invoke retries e h h' = rw (h, attempts, h') refl

  attempts_retried :
      (left : ℕ) (invoke : ℕ → Option ℕ) (retries e : ℕ)
      → invoke retries ≡ some e
      → is_retried e ≡ true
      → attempts (suc left) invoke retries ≡ attempts left invoke (retries + 1)
  unfolding attempts
  attempts_retried left invoke retries e h h' = rw (h, attempts, h') refl

  attempts-Ends :
      (left max : ℕ) (invoke : ℕ → Option ℕ) (retries : ℕ)
      → retries + left ≡ max
      → ((i : ℕ) → i < retries → Retried invoke i)
      → (n : ℕ) × ((i : ℕ) → i < n → Retried invoke i)
        × Ends invoke max n (attempts left invoke retries)
  unfolding attempts
  attempts-Ends zero max invoke retries h before = (retries, before, gives_up (omega arith))
  attempts-Ends (suc left) max invoke retries h before = elim (Option-cases (invoke retries)) [
    | inl e ↦ (
      retries,
      before,
      subst (Ends invoke max retries) (sym (attempts_done left invoke retries e))
          (succeeds (omega arith) e),
    )
    | inr (err, e) ↦ elim (Bool-cases (is_retried err)) [
      | inr no_retry ↦ (
        retries,
        before,
        subst (Ends invoke max retries) (sym (attempts_failed left invoke retries err e no_retry))
            (fails (omega arith) e no_retry),
      )
      | inl again ↦
          let (n, all, ends) =
            attempts-Ends left max invoke (retries + 1) (omega arith) (one_more err e again) in
          (
            n,
            all,
            subst (Ends invoke max n) (sym (attempts_retried left invoke retries err e again)) ends,
          )
    ]
  ]
    where
      one_more :
          (err : ℕ)
          → invoke retries ≡ some err
          → is_retried err ≡ true
          → (i : ℕ) → i < retries + 1
          → Retried invoke i
      one_more err e again i lt = elim (ℕ_discrete i retries) [
        | yes same ↦ subst (Retried invoke) (sym same) (err, e, again)
        | no other ↦ before i (omega arith)
      ]

  -- Some number of first attempts fail with an error that is retried, and then the middleware
  -- either gives up, as often as it was told to try, or the next attempt, within that number,
  -- succeeds, or it fails with an error that is not retried, and nothing is tried after it.
  pub handle-Ends :
      (max : ℕ) (invoke : ℕ → Option ℕ)
      → (n : ℕ) × ((i : ℕ) → i < n → Retried invoke i) × Ends invoke max n (handle max invoke)
  unfolding handle
  handle-Ends max invoke =
      attempts-Ends max max invoke 0 (omega arith) (λ i h. absurd (omega arith))
