-- ===== src/Bots.antt =====
-- internal/tgc/bot_selector.go: the bots of a user take turns.
pub mod Turns
use teldrive_easy.Prelude.{
  ℕ, zero, suc, ◌+◌, ◌-◌, ◌%◌, ◌≡◌, Bool, true, false, List, [], ◌∷◌, Option, none, some, ◌==◌,
  if◌then◌else◌, length, get_elem?,
}
use teldrive_easy.Text.{Text}

-- A panic is the index past the end of the bots.
pub data Error : Type 0 where
  no_bots incr_failed panicked : Error

pub data Choice : Type 0 where
  token : Text → ℕ → Choice
  failed : Error → Choice

-- The counters, one for each key of an operation and a user; a key that is not set counts 0.
unfoldable pub set_index : (ℕ → ℕ) → ℕ → ℕ → (ℕ → ℕ)
set_index idx key i k = if k == key then i else idx k

unfoldable pub chosen : List Text → ℕ → Choice
chosen bots i = elim (get_elem? bots i) [ none ↦ failed panicked | some t ↦ token t i ]

-- `MemoryBotSelector.Next`; `key` is what `selectorKey` makes of the operation and the user.
unfoldable pub next : ℕ → List Text → (ℕ → ℕ) → Choice × (ℕ → ℕ)
next key [] curr_idx = (failed no_bots, curr_idx)
next key (b ∷ bots) curr_idx =
    let idx = curr_idx key in
    (chosen (b ∷ bots) idx, set_index curr_idx key ((idx + 1) % length (b ∷ bots)))

-- `RedisBotSelector.Next`: the counter is incremented in one step, and read after it. Where Redis does
-- not answer, there is an error, and the counter is taken to be as it was.
unfoldable pub redis_next : (answers : Bool) → ℕ → List Text → (ℕ → ℕ) → Choice × (ℕ → ℕ)
redis_next answers key [] counters = (failed no_bots, counters)
redis_next false key (b ∷ bots) counters = (failed incr_failed, counters)
redis_next true key (b ∷ bots) counters =
    let idx = counters key + 1 in
    (chosen (b ∷ bots) ((idx - 1) % length (b ∷ bots)), set_index counters key idx)

-- Calls of one user and operation, with one list of bots.
unfoldable pub turns :
    (ℕ → List Text → (ℕ → ℕ) → Choice × (ℕ → ℕ)) → ℕ → ℕ → List Text → (ℕ → ℕ) → List Choice
turns step zero key bots s = []
turns step (suc n) key bots s = (step key bots s).0 ∷ turns step n key bots (step key bots s).1
