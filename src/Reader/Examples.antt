-- ===== src/Reader/Examples.antt =====
-- Runs of internal/reader on small parts.
use teldrive_easy.Prelude.{
  Bool, zero, suc, false, inl, inr, ◌∙◌, replicate, take-append-drop, length-take_pos, ℕ, ◌+◌, ◌<◌,
  ◌≡◌, ◌⊎◌, refl, List, [], ◌∷◌, ◌++◌, Option, none, some, length, arith, take, drop,
}
use teldrive_easy.Prelude.Slices.{slice}
use teldrive_easy.Reader.Ranges.{
  Range, calculate_part_byte_ranges, gather, part_bytes, range_bytes,
  gather-calculate_part_byte_ranges,
}
use teldrive_easy.Reader.Chunks.{calculate_chunk_size}
use teldrive_easy.Reader.Multi.{
  MultiReader, new_multi_reader, run, step, Action, fetches, sends, reads, next_batch, fetch_batch,
  fetch_from, send, moved, read, is_empty, receive, copy_out, cut_chunk, increment, taken, reported,
  unreported,
}
use teldrive_easy.Stream.{Serves, AllPositive, read_all}
use teldrive_easy.Reader.Parts.{Error, eof, Result, ok, Part, Reader, new_reader, part_size}
use teldrive_easy.Reader.Parts as Parts
use teldrive_easy.Reader.Parts.Whole.{read_all-new_reader}
use teldrive_easy.Reader.Multi.Owed.{owed}
use teldrive_easy.Reader.Multi.Runs.{run-new_multi_reader, run-read_end}
use teldrive_easy.Reader.Multi.Progress.{run-moves}

abbrev content : List ℕ
content = 1 ∷ 2 ∷ 3 ∷ 4 ∷ 5 ∷ 6 ∷ []

abbrev chunk : ℕ → ℕ → Option (List ℕ)
chunk offset limit = some (slice offset (offset + limit) content)

abbrev opened : MultiReader
opened = new_multi_reader 2 1 1 4

-- The stream of the bytes 1 to 4, read to its end, and one that has read the first two of them.
abbrev all_actions : List Action
all_actions = fetches ∷ sends ∷ reads 3 ∷ reads 3 ∷ []

abbrev some_actions : List Action
some_actions = fetches ∷ sends ∷ reads 2 ∷ []

after : List Action → MultiReader
after actions = elim (run chunk actions opened) [ none ↦ opened | some (bytes, r) ↦ r ]

run-new_multi_reader_example :
    ((2 ∷ 3 ∷ []) ++ owed content 1 4 (after some_actions) ≡ slice 1 5 content)
    × (length (owed content 1 4 (after some_actions)) ≡ (after some_actions).limit)
unfolding after run step next_batch new_multi_reader calculate_chunk_size fetch_batch fetch_from
    send moved read is_empty receive copy_out take drop cut_chunk increment taken reported
    unreported
run-new_multi_reader_example =
    run-new_multi_reader chunk content 2 1 1 4 some_actions (2 ∷ 3 ∷ []) (after some_actions)
      (λ offset limit. refl) (omega arith) (omega arith) refl

ended : Option (List ℕ × Bool × MultiReader) → MultiReader
ended none = opened
ended (some (bytes, is_end, r)) = r

run-read_end_example : (2 ∷ 3 ∷ []) ++ (4 ∷ 5 ∷ []) ≡ slice 1 5 content
unfolding ended after run step next_batch new_multi_reader calculate_chunk_size fetch_batch
    fetch_from send moved read is_empty receive copy_out take drop cut_chunk increment taken
    reported unreported
run-read_end_example =
    run-read_end chunk content 2 1 1 4 some_actions (2 ∷ 3 ∷ []) (after some_actions) 9 (4 ∷ 5 ∷ [])
      (ended (read 9 (after some_actions))) (λ offset limit. refl) (omega arith) (omega arith) refl
      refl

run-moves_example :
    ((x : List ℕ × MultiReader) × (step chunk fetches (after some_actions) ≡ some x))
    ⊎ (((x : List ℕ × MultiReader) × (step chunk sends (after some_actions) ≡ some x))
        ⊎ ((x : List ℕ × MultiReader) × (step chunk (reads 2) (after some_actions) ≡ some x)))
unfolding after run step next_batch new_multi_reader calculate_chunk_size fetch_batch fetch_from
    send moved read is_empty receive copy_out take drop cut_chunk increment taken reported
    unreported
run-moves_example =
    run-moves chunk content 2 1 1 4 2 some_actions (2 ∷ 3 ∷ []) (after some_actions)
      (λ offset limit. refl) (omega arith) (omega arith) refl (omega arith) (omega arith)

-- The whole range in two reads, the second of which reports the end.
whole_range_test : run chunk all_actions opened ≡ some (2 ∷ 3 ∷ 4 ∷ 5 ∷ [], after all_actions)
unfolding after run step next_batch new_multi_reader calculate_chunk_size fetch_batch fetch_from
    send moved read is_empty receive copy_out take drop cut_chunk increment taken reported
    unreported
whole_range_test = refl

gather-calculate_part_byte_ranges_example :
    (rs : List Range) × (calculate_part_byte_ranges 1 4 2 ≡ some rs)
    × (gather (part_bytes content 2) rs ≡ slice 1 5 content)
gather-calculate_part_byte_ranges_example =
    gather-calculate_part_byte_ranges content 1 4 2 (omega arith) (omega arith)

-- The parts of a file in memory, read piece by piece.
piece_read : ℕ → List ℕ → List ℕ × Option Error × List ℕ
piece_read k [] = ([], some eof, [])
piece_read k (x ∷ xs) = (take k (x ∷ xs), none, drop k (x ∷ xs))

open_piece : Range → Result (List ℕ)
open_piece r = ok (range_bytes (part_bytes content 4) r)

abbrev Left : List ℕ → List ℕ → Type 0
Left pending s = s ≡ pending

piece_read-Serves :
    (k : ℕ) (pending s : List ℕ)
    → 0 < k
    → Left pending s
    → Serves piece_read Left eof pending (piece_read k s)
unfolding piece_read
piece_read-Serves k pending [] h e = record { rest = []; split = e; outcome = inr (refl, refl) }
piece_read-Serves k pending (x ∷ xs) h e = record {
  rest = drop k (x ∷ xs);
  split = take-append-drop k (x ∷ xs) ∙ e;
  outcome = inl (refl, refl, length-take_pos k (x ∷ xs) h (omega arith));
}

abbrev four_bytes : Part
four_bytes = record { size = 4; decrypted_size = 0 }

twos : (k : ℕ) → AllPositive (replicate k 2)
twos zero = tt
twos (suc k) = (omega arith, twos k)

read_all-new_reader_example :
    (r : Reader piece_read open_piece) × (new_reader piece_read open_piece false
        (four_bytes ∷ four_bytes ∷ [])
        1
        5
      ≡ ok r)
    × ((read_all (Parts.read piece_read open_piece) (replicate 7 2) r).0 ≡ slice 1 6 content)
    × ((read_all (Parts.read piece_read open_piece) (replicate 7 2) r).1 ≡ some eof)
unfolding open_piece part_size
read_all-new_reader_example =
    read_all-new_reader piece_read open_piece Left false four_bytes (four_bytes ∷ []) content 1 5
      (replicate 7 2) piece_read-Serves (λ r _ _. (_, refl, refl)) (omega arith) (omega arith)
      (omega arith) (omega arith) (twos 7) (omega arith)
