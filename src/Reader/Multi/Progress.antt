-- ===== src/Reader/Multi/Progress.antt =====
-- The two goroutines of a stream never wait for each other for good.
use mathlib.Core.Option
use mathlib.Core.Option.{none-ne-some}
use teldrive_easy.Prelude.{
  ℕ, ◌<◌, ◌≤◌, ◌≡◌, refl, ap, ◌∙◌, Option, some, none, List, [], ◌∷◌, ◌++◌, arith, dec_lt, ltb-true,
  length, Bool-cases, true, false, List-cases, inl, inr, ◌⊎◌, if◌then◌else◌,
}
use teldrive_easy.Prelude.Slices.{slice_empty}
use teldrive_easy.Reader.Multi.{
  MultiReader, contents, new_multi_reader, next_batch, fetch_batch, send, receive, copy_out, Action,
  fetches, sends, reads, step, run, is_empty, moved,
}
use teldrive_easy.Reader.Multi.Owed.{GivesChunks, Live, owed, fetch_from-from_on, beyond}
use teldrive_easy.Reader.Multi.Runs.{
  taken_waiting, taken_held, read_step, used_up, run-new_multi_reader, run-Keeps, new_Live,
}

module _ (chunk : ℕ → ℕ → Option (List ℕ)) (content : List ℕ) (gives : GivesChunks chunk content)
    (start end base : ℕ) (le : start ≤ end) where
  abbrev CanMove : ℕ → MultiReader → Type 0
  CanMove k r =
      ((x : List ℕ × MultiReader) × (step chunk fetches r ≡ some x))
      ⊎ (((x : List ℕ × MultiReader) × (step chunk sends r ≡ some x))
          ⊎ ((x : List ℕ × MultiReader) × (step chunk (reads k) r ≡ some x)))

  batch_ready :
      (r : MultiReader) (bs : List (List ℕ))
      → r.outbox ≡ []
      → r.current_part < r.total_parts
      → fetch_batch chunk r ≡ some bs
      → next_batch chunk r.outbox r ≡ some bs
  unfolding next_batch
  batch_ready r bs idle more e =
      ap (λ o. next_batch chunk o r) idle
      ∙ ap (λ b. if b then fetch_batch chunk r else none) (ltb-true more)
      ∙ e

  fetch_moves :
      (k : ℕ) (r : MultiReader)
      → Live start end base r
      → r.outbox ≡ []
      → r.current_part < r.total_parts
      → CanMove k r
  unfolding step next_batch fetch_batch
  fetch_moves k r live idle more =
      let (bs, e, _) =
        fetch_from-from_on chunk content gives start end base r.concurrency 0 r live le in
      inl (([], moved bs r), ap (Option.map (λ b. ([], moved b r))) (batch_ready r bs idle more e))

  send_moves :
      (k : ℕ) (r : MultiReader) (b : List ℕ) (rest : List (List ℕ))
      → r.outbox ≡ b ∷ rest
      → length r.buffer_chan < r.buffers
      → CanMove k r
  unfolding step send
  send_moves k r b rest e room = inr (
      inl (
        ([], record r { buffer_chan = r.buffer_chan ++ b ∷ []; outbox = rest }),
        rw (e, ltb-true room) refl,
      ))

  read_moves :
      (k : ℕ) (r : MultiReader) (b : List ℕ) (rest : List (List ℕ))
      → 0 < r.limit
      → is_empty r.cur ≡ true
      → r.buffer_chan ≡ b ∷ rest
      → CanMove k r
  unfolding step receive
  read_moves k r b rest more e there = inr (
      inr (
        copy_out k (record r { buffer_chan = rest; cur = record { buf = b; offset = 0 } }),
        read_step chunk content gives start end base le k r
            ∙ taken_waiting chunk content gives start end base le k r more e
            ∙ ap (λ c. Option.map (copy_out k) (receive c r)) there,
      ))

  held_moves : (k : ℕ) (r : MultiReader) → 0 < r.limit → is_empty r.cur ≡ false → CanMove k r
  unfolding step
  held_moves k r more e = inr (
      inr (
        _,
        read_step chunk content gives start end base le k r
            ∙ taken_held chunk content gives start end base le k r more e,
      ))

  -- With every buffer drained, a range that is still owed has a part left to fetch.
  part_left :
      (r : MultiReader)
      → Live start end base r
      → contents r.cur ≡ []
      → r.buffer_chan ≡ []
      → r.outbox ≡ []
      → 0 < length (owed content start end r)
      → r.current_part < r.total_parts
  part_left r live e e1 e2 more = elim (dec_lt r.current_part r.total_parts) [
    | yes h ↦ h
    | no over ↦
        let done = beyond chunk content gives start end base 0 r live (omega arith) in
        let nothing : owed content start end r ≡ [] =
          rw (e, e1, e2) (slice_empty _ _ content (omega arith)) in
        absurd (omega (arith, ap length nothing))
  ]

  moves :
      (k : ℕ) (r : MultiReader)
      → Live start end base r
      → 0 < r.limit
      → 0 < r.buffers
      → length (owed content start end r) ≡ r.limit
      → CanMove k r
  moves k r live more room size = elim (Bool-cases (is_empty r.cur)) [
    | inr held ↦ held_moves k r more held
    | inl empty ↦ elim (List-cases r.buffer_chan) [
      | inr (b, rest, e) ↦ read_moves k r b rest more empty e
      | inl none_sent ↦ elim (List-cases r.outbox) [
        | inr (b, rest, e) ↦ send_moves k r b rest e (omega (arith, ap length none_sent))
        | inl idle ↦ fetch_moves k r live idle (
            part_left r live (used_up chunk content gives start end base le r empty) none_sent idle
              (omega arith))
      ]
    ]
  ]

-- No deadlock: after any run of the two goroutines, for a source that gives the bytes of a part and
-- a range inside that part, while the limit is not used up and the channel has a capacity, the
-- producer can fetch a batch or send a buffer, or a read of any size returns.
pub run-moves :
    (chunk : ℕ → ℕ → Option (List ℕ)) (content : List ℕ) (buffers concurrency start end k : ℕ)
    (actions : List Action) (bytes : List ℕ) (r : MultiReader)
    → GivesChunks chunk content
    → start ≤ end
    → end < length content
    → run chunk actions (new_multi_reader buffers concurrency start end) ≡ some (bytes, r)
    → 0 < r.limit
    → 0 < r.buffers
    → ((x : List ℕ × MultiReader) × (step chunk fetches r ≡ some x))
      ⊎ (((x : List ℕ × MultiReader) × (step chunk sends r ≡ some x))
          ⊎ ((x : List ℕ × MultiReader) × (step chunk (reads k) r ≡ some x)))
run-moves chunk content buffers concurrency start end k actions bytes r gives le inside h more
      room =
    let r0 = new_multi_reader buffers concurrency start end in
    let kept =
      run-Keeps chunk content gives start end r0.offset le actions r0 r bytes
        (new_Live buffers concurrency start end le) h in
    let (_, size) =
      run-new_multi_reader chunk content buffers concurrency start end actions bytes r gives le
        inside h in
    moves chunk content gives start end r0.offset le k r kept.live more room size
