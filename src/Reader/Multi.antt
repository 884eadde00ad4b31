-- ===== src/Reader/Multi.antt =====
-- `tgMultiReader` of internal/reader/tg_reader.go, with `buffer` of internal/reader/buffer.go: a
-- goroutine fetches chunks in batches and sends them through a channel that `Read` drains.
pub mod Cuts
pub mod Owed
pub mod Runs
pub mod Progress
use teldrive_easy.Prelude.{
  ℕ, zero, suc, ◌+◌, ◌-◌, ◌*◌, ◌/◌, ◌%◌, Bool, true, false, List, [], ◌∷◌, ◌++◌, Option, none, some,
  length, take, drop, ltb, leb, ◌==◌, if◌then◌else◌,
}
use mathlib.Core.Option
use teldrive_easy.Prelude.Slices.{slice}
use teldrive_easy.Reader.Chunks.{calculate_chunk_size}

-- internal/reader/buffer.go.
pub record Buffer : Type 0 where
  pub buf : List ℕ
  pub offset : ℕ

abbrev pub contents : Buffer → List ℕ
contents b = drop b.offset b.buf

unfoldable pub is_empty : Buffer → Bool
is_empty b = leb (length b.buf - b.offset) 0

unfoldable pub increment : Buffer → ℕ → Buffer
increment b n = record b { offset = b.offset + n }

-- `outbox` holds the buffers of the last batch that are not yet sent; `buffers` is the capacity of
-- the channel. A current buffer of no bytes stands for `nil` too.
pub record MultiReader : Type 0 where
  pub offset : ℕ
  pub limit : ℕ
  pub chunk_size : ℕ
  pub buffers : ℕ
  pub buffer_chan : List (List ℕ)
  pub outbox : List (List ℕ)
  pub cur : Buffer
  pub concurrency : ℕ
  pub left_cut : ℕ
  pub right_cut : ℕ
  pub total_parts : ℕ
  pub current_part : ℕ

-- `newTGMultiReader`.
unfoldable pub new_multi_reader : (buffers concurrency start end : ℕ) → MultiReader
new_multi_reader buffers concurrency start end =
    let chunk_size = calculate_chunk_size start end in
    let offset = start - start % chunk_size in
    record {
      offset = offset;
      limit = end - start + 1;
      chunk_size = chunk_size;
      buffers = buffers;
      buffer_chan = [];
      outbox = [];
      cur = record { buf = []; offset = 0 };
      concurrency = concurrency;
      left_cut = start - offset;
      right_cut = end % chunk_size + 1;
      total_parts = (end - offset + chunk_size) / chunk_size;
      current_part = 0;
    }

-- The cuts at both ends of the range, by the number of the chunk. A cut past the end of a chunk,
-- which Go reslices or panics at, stops there; a source that gives whole chunks leaves none.
unfoldable pub cut_chunk : MultiReader → ℕ → List ℕ → List ℕ
cut_chunk r part chunk =
    if r.total_parts == 1
    then slice r.left_cut r.right_cut chunk
    else if part == 0
    then drop r.left_cut chunk
    else if part + 1 == r.total_parts
    then take r.right_cut chunk
    else chunk

-- The source of chunks: the bytes from an offset on, at most so many; `none` is an error.
module _ (chunk : ℕ → ℕ → Option (List ℕ)) where
  -- The loop of `fillBatch` from the `i`-th of the batch on, for `rounds` more; one chunk that fails
  -- fails the batch.
  unfoldable pub fetch_from : (rounds i : ℕ) → MultiReader → Option (List (List ℕ))
  fetch_from zero i r = some []
  fetch_from (suc rounds) i r =
      let rest = fetch_from rounds (i + 1) r in
      if ltb (r.current_part + i) r.total_parts
      then elim (chunk (r.offset + i * r.chunk_size) r.chunk_size) [
        | none ↦ none
        | some bytes ↦ elim rest [
          | none ↦ none
          | some more ↦ some (cut_chunk r (r.current_part + i) bytes ∷ more)
        ]
      ]
      else some []

  unfoldable pub fetch_batch : MultiReader → Option (List (List ℕ))
  fetch_batch r = fetch_from r.concurrency 0 r

-- What the two goroutines do next: a whole batch is fetched, one buffer is sent, or the caller
-- reads into so many bytes.
pub data Action : Type 0 where
  fetches sends : Action
  reads : ℕ → Action

-- The place of the next batch. The goroutine moves it on once the batch is sent, and reads it only
-- then.
unfoldable pub moved : List (List ℕ) → MultiReader → MultiReader
moved batch r = record r {
  outbox = batch;
  current_part = r.current_part + r.concurrency;
  offset = r.offset + r.chunk_size * r.concurrency;
}

-- `r.bufferChan <- buf` waits for room in the channel.
unfoldable pub send : List (List ℕ) → MultiReader → Option MultiReader
send [] r = none
send (b ∷ rest) r =
    if ltb (length r.buffer_chan) r.buffers
    then some (record r { buffer_chan = r.buffer_chan ++ b ∷ []; outbox = rest })
    else none

-- `<-r.bufferChan` waits for a buffer.
unfoldable pub receive : List (List ℕ) → MultiReader → Option MultiReader
receive [] r = none
receive (b ∷ rest) r = some (record r { buffer_chan = rest; cur = record { buf = b; offset = 0 } })

unfoldable pub copy_out : ℕ → MultiReader → List ℕ × MultiReader
copy_out k r =
    let bytes = take k (contents r.cur) in
    (bytes, record r { cur = increment r.cur (length bytes); limit = r.limit - length bytes })

-- What `Read` into `k` bytes copies; `none` is a wait.
unfoldable pub taken : ℕ → MultiReader → Option (List ℕ × MultiReader)
taken k r =
    if leb r.limit 0
    then some ([], r)
    else if is_empty r.cur
    then Option.map (copy_out k) (receive r.buffer_chan r)
    else some (copy_out k r)

-- The end of the file is reported, with the last bytes or after them, where the limit is used up.
unfoldable pub reported : List ℕ × MultiReader → List ℕ × Bool × MultiReader
reported (bytes, r) = (bytes, leb r.limit 0, r)

-- `Read`: the bytes, whether the end of the file is reported, and the state.
unfoldable pub read : ℕ → MultiReader → Option (List ℕ × Bool × MultiReader)
read k r = Option.map reported (taken k r)

unfoldable pub unreported : List ℕ × Bool × MultiReader → List ℕ × MultiReader
unreported (bytes, is_end, r) = (bytes, r)

-- One action; `none` where it has to wait, is over, or failed.
module _ (chunk : ℕ → ℕ → Option (List ℕ)) where
  -- The next batch, once the last one is sent.
  unfoldable pub next_batch : List (List ℕ) → MultiReader → Option (List (List ℕ))
  next_batch [] r = if ltb r.current_part r.total_parts then fetch_batch chunk r else none
  next_batch (_ ∷ _) r = none

  unfoldable pub step : Action → MultiReader → Option (List ℕ × MultiReader)
  step fetches r = Option.map (λ b. ([], moved b r)) (next_batch r.outbox r)
  step sends r = Option.map (λ r'. ([], r')) (send r.outbox r)
  step (reads k) r = Option.map unreported (read k r)

  -- A run of both goroutines, and the bytes that the caller got.
  unfoldable pub run : List Action → MultiReader → Option (List ℕ × MultiReader)
  run [] r = some ([], r)
  run (a ∷ as') r = elim (step a r) [
    | none ↦ none
    | some (bytes, r') ↦ Option.map (λ t. (bytes ++ t.0, t.1)) (run as' r')
  ]
