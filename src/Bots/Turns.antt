-- ===== src/Bots/Turns.antt =====
-- Both selectors take the bots in turn.
use native.Mathlib.Nat.{mod-lt, mod-add-mod}
use teldrive_easy.Prelude.{
  ℕ, zero, suc, ◌+◌, ◌%◌, ◌<◌, ◌≡◌, refl, ap, ap₂, ◌∙◌, List, [], ◌∷◌, some, true, ==_true, length,
  get_elem?, arith,
}
use teldrive_easy.Text.{Text}
use teldrive_easy.Bots.{Choice, token, set_index, chosen, next, redis_next, turns}

-- The bots from the place `i` on, round and round.
unfoldable pub round_robin : ℕ → ℕ → List Text → List Choice
round_robin zero i bots = []
round_robin (suc n) i bots = chosen bots (i % length bots) ∷ round_robin n (i + 1) bots

get_elem?-some :
    {A : Type 0} (xs : List A) (i : ℕ) → i < length xs → (a : A) × (get_elem? xs i ≡ some a)
get_elem?-some [] i h = absurd (omega arith)
get_elem?-some (x ∷ xs) zero h = (x, refl)
get_elem?-some (x ∷ xs) (suc i) h = get_elem?-some xs i (omega arith)

pub chosen_token :
    (bots : List Text) (i : ℕ)
    → i < length bots
    → (t : Text) × (get_elem? bots i ≡ some t) × (chosen bots i ≡ token t i)
unfolding chosen
chosen_token bots i h = let (t, e) = get_elem?-some bots i h in (t, e, rw (e, chosen) refl)

set_index_self : (idx : ℕ → ℕ) (key i : ℕ) → set_index idx key i key ≡ i
unfolding set_index
set_index_self idx key i = rw (==_true key key refl) refl

redis_turns :
    (n key : ℕ) (b : Text) (bots : List Text) (counters : ℕ → ℕ)
    → turns (redis_next true) n key (b ∷ bots) counters ≡ round_robin n (counters key) (b ∷ bots)
unfolding turns round_robin redis_next
redis_turns zero key b bots s = refl
redis_turns (suc n) key b bots s =
    ap₂ ◌∷◌ (ap (λ i. chosen (b ∷ bots) (i % length (b ∷ bots))) (omega arith)) (
      redis_turns n key b bots (set_index s key (s key + 1))
      ∙ ap (λ i. round_robin n i (b ∷ bots)) (set_index_self s key (s key + 1)))

memory_turns :
    (n key i : ℕ) (b : Text) (bots : List Text) (curr_idx : ℕ → ℕ)
    → curr_idx key ≡ i % length (b ∷ bots)
    → turns next n key (b ∷ bots) curr_idx ≡ round_robin n i (b ∷ bots)
unfolding turns round_robin next
memory_turns zero key i b bots s h = refl
memory_turns (suc n) key i b bots s h = ap₂ ◌∷◌ (ap (chosen (b ∷ bots)) h) (
    memory_turns n key (i + 1) b bots _ (
      set_index_self s key _
      ∙ ap (λ k. (k + 1) % length (b ∷ bots)) h
      ∙ mod-add-mod i (length (b ∷ bots)) 1))

-- While the list of bots is the same, Redis answers and both start at the same bot, both selectors
-- hand out the same bots, in turn from their counter on, each of them one that is there; the selector
-- in memory counts modulo the number of bots, the one in Redis does not.
pub next-redis_next :
    (n key : ℕ) (b : Text) (bots : List Text) (curr_idx counters : ℕ → ℕ)
    → curr_idx key ≡ counters key % length (b ∷ bots)
    → (turns next n key (b ∷ bots) curr_idx ≡ round_robin n (counters key) (b ∷ bots))
      × (turns (redis_next true) n key (b ∷ bots) counters
          ≡ round_robin n (counters key) (b ∷ bots))
      × ((i : ℕ)
          → (t : Text) × (chosen (b ∷ bots) (i % length (b ∷ bots))
              ≡ token t (i % length (b ∷ bots))))
next-redis_next n key b bots curr_idx counters h = (
  memory_turns n key (counters key) b bots curr_idx h,
  redis_turns n key b bots counters,
  λ i.
      let (t, _, e) = chosen_token (b ∷ bots) (i % length (b ∷ bots)) (mod-lt i (omega arith)) in
      (t, e),
)
