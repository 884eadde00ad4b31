-- ===== src/Crypt/Source.antt =====
-- The readers below the cipher, and `readFill` of internal/crypt/cipher.go.
pub mod Fill
use teldrive_easy.Prelude.{
  ℕ, zero, suc, ◌+◌, ◌-◌, min, Bool, ◌&&◌, true, false, List, [], ◌∷◌, ◌++◌, Option, none, some,
  length, take, drop, ltb, if◌then◌else◌,
}
use teldrive_easy.Crypt.Errors.{Error}

-- An `io.Reader`: the bytes that it has left, the error behind them, whether that error comes
-- with the last bytes, and how many bytes its next calls give at most (then as many as asked).
pub record Source : Type 0 where
  pub bytes : List ℕ
  pub tail : Error
  pub eager : Bool
  pub schedule : List ℕ

next_size : ℕ → List ℕ → ℕ
next_size k [] = k
next_size k (n ∷ _) = min k n

rest_of : List ℕ → List ℕ
rest_of [] = []
rest_of (_ ∷ ns) = ns

is_empty : List ℕ → Bool
is_empty [] = true
is_empty (_ ∷ _) = false

-- One `Read` into a buffer of `k` bytes.
read : ℕ → Source → List ℕ × Option Error × Source
unfolding next_size rest_of is_empty
read k s =
    let n = next_size k s.schedule in
    let rest = drop n s.bytes in
    if is_empty s.bytes then ([], some s.tail, s) else (
      take n s.bytes,
      (if s.eager && is_empty rest then some s.tail else none),
      record s { bytes = rest; schedule = rest_of s.schedule },
    )

is_none : Option Error → Bool
is_none none = true
is_none (some _) = false

-- The loop of `readFill`, on fuel: `acc` is what the buffer of `k` bytes holds.
fill_loop : ℕ → ℕ → List ℕ → Option Error → Source → List ℕ × Option Error × Source
unfolding is_none read
fill_loop zero k acc e s = (acc, e, s)
fill_loop (suc fuel) k acc e s =
    let (bytes, e', s') = read (k - length acc) s in
    let rest = fill_loop fuel k (acc ++ bytes) e' s' in
    if ltb (length acc) k && is_none e then rest else (acc, e, s)

-- `readFill`. A call of `Read` for each entry of the schedule, one that gives all that is asked
-- for or all there is, and one that reports the end are enough.
unfoldable pub read_fill : ℕ → Source → List ℕ × Option Error × Source
unfolding fill_loop
read_fill k s = fill_loop (2 + length s.schedule) k [] none s
