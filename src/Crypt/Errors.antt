-- ===== src/Crypt/Errors.antt =====
-- The errors of internal/crypt/cipher.go, and results that carry one.
use teldrive_easy.Prelude.{ℕ}

-- `failed k` is an error that the reader below reports, `misused` one that a wrong call of
-- `RangeSeek` makes, and `reopen e` the error `e` wrapped there.
pub data Error : Type 0 where
  eof file_too_short bad_header bad_magic file_closed bad_seek misused : Error
  short_nonce : Error
  failed : ℕ → Error
  reopen : Error → Error

pub data Result {ℓ} (A : Type ℓ) : Type ℓ where
  ok : A → Result A
  err : Error → Result A

infixl 5 ◌>>=◌
abbrev pub ◌>>=◌ {ℓ κ} : {A : Type ℓ} {B : Type κ} → Result A → (A → Result B) → Result B
ok a >>= f = f a
err e >>= f = err e
