-- ===== src/Examples.antt =====
-- Runs of internal/tgc/bot_selector.go, internal/http_range/range.go and internal/retry/retry.go.
use teldrive_easy.Prelude.{
  true, ℕ, zero, suc, ◌%◌, ◌<◌, ◌≡◌, ◌≢◌, refl, false, List, [], ◌∷◌, ◌++◌, Option, none, some,
  length, map, drop, ◌==◌,
}
use teldrive_easy.Prelude.Int.{pos}
use teldrive_easy.Text.{Text, index, split_head, split_tail}
use teldrive_easy.Bots.{token, failed, panicked, turns, next, redis_next, chosen, set_index}
use teldrive_easy.Bots.Turns.{round_robin, next-redis_next}
use teldrive_easy.HttpRange.{
  Range, Outcome, parsed, parse, minus, comma, equals, outcome, elements, element, one_range, clip,
  add_range, parse_int, positive, unsigned, digits,
}
use teldrive_easy.HttpRange as HttpRange
use teldrive_easy.HttpRange.Inside.{AllInside, parse-Inside}
use teldrive_easy.Retry.{handle, Ends, Retried, handle-Ends}
use teldrive_easy.Hash.{new_block_hasher, sum, concat, block_size}
use teldrive_easy.Hash.Blocks.{AllSized, writes, tail_hash, sum-writes}

abbrev two_bots : List Text
two_bots = (1 ∷ []) ∷ (2 ∷ []) ∷ []

next-redis_next_example :
    (turns next 3 0 two_bots (λ k. 0) ≡ round_robin 3 4 two_bots)
    × (turns (redis_next true) 3 0 two_bots (λ k. 4) ≡ round_robin 3 4 two_bots)
    × ((i : ℕ)
        → (t : Text) × (chosen two_bots (i % length two_bots) ≡ token t (i % length two_bots)))
next-redis_next_example = next-redis_next 3 0 (1 ∷ []) ((2 ∷ []) ∷ []) (λ k. 0) (λ k. 4) refl

-- A bot is removed while the second one is next: the index runs past the end.
fewer_bots_test : (next 0 ((1 ∷ []) ∷ []) (next 0 two_bots (λ k. 0)).1).0 ≡ failed panicked
unfolding next chosen set_index
fewer_bots_test = refl

-- "bytes=2-3" and "bytes=5".
abbrev bytes_2_3 : Text
bytes_2_3 = 98 ∷ 61 ∷ 50 ∷ 45 ∷ 51 ∷ []

abbrev bytes_5 : Text
bytes_5 = 98 ∷ 61 ∷ 53 ∷ []

abbrev only_2_3 : List Range
only_2_3 = record { start = pos 2; end = pos 3 } ∷ []

parse-Inside_example : AllInside (pos 10) only_2_3 × (only_2_3 ≢ [])
unfolding parse index outcome elements element one_range clip add_range parse_int positive unsigned
    digits split_head split_tail drop
parse-Inside_example = parse-Inside bytes_2_3 (pos 10) only_2_3 refl

no_dash_test : parse bytes_5 (pos 10) ≡ HttpRange.panicked
unfolding parse index outcome elements element split_head split_tail drop
no_dash_test = refl

-- The first two attempts time out.
abbrev times_out : ℕ → Option ℕ
times_out i = elim i [ zero ↦ some 1 | suc zero ↦ some 1 | _ ↦ none ]

handle-Ends_example :
    (n : ℕ) × ((i : ℕ) → i < n → Retried (λ e. e == 1) (λ e. false) times_out i)
    × Ends (λ e. e == 1) (λ e. false) times_out 5 n (handle (λ e. e == 1) (λ e. false) 5 times_out)
handle-Ends_example = handle-Ends (λ e. e == 1) (λ e. false) 5 times_out

sum-writes_example :
    (blocks : List (List ℕ)) × (part : List ℕ) × (concat blocks ++ part
      ≡ concat ((1 ∷ 2 ∷ []) ∷ (3 ∷ []) ∷ []))
    × AllSized block_size blocks
    × (length part < block_size)
    × ((sum
          (λ m. length m ∷ [])
          (writes (λ m. length m ∷ []) ((1 ∷ 2 ∷ []) ∷ (3 ∷ []) ∷ []) new_block_hasher)).0
        ≡ concat (map (λ m. length m ∷ []) blocks ++ tail_hash (λ m. length m ∷ []) part))
sum-writes_example = sum-writes (λ m. length m ∷ []) ((1 ∷ 2 ∷ []) ∷ (3 ∷ []) ∷ [])
