-- ===== src/Reader/Multi/Owed.antt =====
-- What a stream still owes its caller, and that no action of either goroutine changes it.
use Prim.Native.Nat.{max}
use native.Mathlib.Nat.{add-zero}
use mathlib.Core.Option.{some-injective}
use teldrive_easy.Prelude.{
  ℕ, zero, suc, ◌+◌, ◌-◌, ◌*◌, ◌<◌, ◌≤◌, ◌≡◌, refl, sym, ap, ap₂, ◌∙◌, min, Option, some, List, [],
  ◌∷◌, ◌++◌, take, arith, dec_lt, ltb-true, ltb-false, append_assoc, append-nil, length, drop-drop,
  take_rest, drop_zero,
}
use teldrive_easy.Prelude.Slices.{slice, slice-append, slice_empty, slice_from_min}
use teldrive_easy.Reader.Multi.{
  MultiReader, contents, cut_chunk, fetch_from, fetch_batch, next_batch, moved, send, receive,
  copy_out, increment,
}
use teldrive_easy.Reader.Multi.Cuts.{Covers, share, cut_chunk-share}

-- A source that gives the bytes of a part from an offset on, at most so many.
abbrev pub GivesChunks : (ℕ → ℕ → Option (List ℕ)) → List ℕ → Type 0
GivesChunks chunk content =
    (offset limit : ℕ) → chunk offset limit ≡ some (slice offset (offset + limit) content)

abbrev pub concat : List (List ℕ) → List ℕ
concat [] = []
concat (b ∷ bs) = b ++ concat bs

concat-append : (xs ys : List (List ℕ)) → concat (xs ++ ys) ≡ concat xs ++ concat ys
concat-append [] ys = refl
concat-append (x ∷ xs) ys =
    ap (◌++◌ x) (concat-append xs ys) ∙ sym (append_assoc x (concat xs) (concat ys))

mul_mono : (p q size : ℕ) → p ≤ q → p * size ≤ q * size
mul_mono p q size h = grind arith

last_part : (t size : ℕ) → 1 ≤ t → (t - 1) * size + size ≡ t * size
last_part zero size h = absurd (omega arith)
last_part (suc t) size h =
    let e : suc t - 1 ≡ t = omega arith in omega (arith, ap (λ (x : ℕ). x * size) e)

-- The reader stands between two chunks of its range.
pub record Live (start end base : ℕ) (r : MultiReader) : Type 0 where
  pub covers : Covers start end base r
  pub aligned : r.offset ≡ base + r.current_part * r.chunk_size

-- The bytes of the range from the place `at` on, and up to it.
abbrev pub from_on : List ℕ → (start end at : ℕ) → List ℕ
from_on content start end at = slice (max start at) (end + 1) content

module _ (chunk : ℕ → ℕ → Option (List ℕ)) (content : List ℕ) (gives : GivesChunks chunk content)
    (start end base : ℕ) where
  fetch_from-none : (i : ℕ) (r : MultiReader) → fetch_from chunk 0 i r ≡ some []
  unfolding fetch_from
  fetch_from-none i r = refl

  fetch_from-more :
      (rounds i : ℕ) (r : MultiReader) (bs : List (List ℕ))
      → r.offset ≡ base + r.current_part * r.chunk_size
      → r.current_part + i < r.total_parts
      → fetch_from chunk rounds (i + 1) r ≡ some bs
      → fetch_from chunk (suc rounds) i r
        ≡ some (
            cut_chunk r (r.current_part + i) (
              slice
                (r.offset + i * r.chunk_size)
                (r.offset + i * r.chunk_size + r.chunk_size)
                content)
            ∷ bs)
  unfolding fetch_from
  fetch_from-more rounds i r bs a h e =
      rw (ltb-true h, gives (r.offset + i * r.chunk_size) r.chunk_size, e)

  fetch_from-over :
      (rounds i : ℕ) (r : MultiReader)
      → r.total_parts ≤ r.current_part + i
      → fetch_from chunk rounds i r ≡ some []
  unfolding fetch_from
  fetch_from-over zero i r h = refl
  fetch_from-over (suc rounds) i r h = rw (ltb-false h)

  -- Behind the last part nothing of the range is left.
  pub beyond :
      (j : ℕ) (r : MultiReader)
      → Live start end base r
      → r.total_parts ≤ r.current_part + j
      → end + 1 ≤ r.offset + j * r.chunk_size
  beyond j r live h =
      let c = live.covers in
      let whole = last_part r.total_parts r.chunk_size c.some_part in
      omega (
        arith,
        whole,
        mul_mono r.total_parts (r.current_part + j) r.chunk_size h,
        c.right,
        c.within,
        live.aligned,
      )

  share-from_on :
      (p : ℕ) (r : MultiReader)
      → Live start end base r
      → start ≤ end
      → p < r.total_parts
      → let off = base + p * r.chunk_size in
        share content start end r.chunk_size off ++ from_on content start end (off + r.chunk_size)
        ≡ from_on content start end off
  share-from_on p r live le h =
      let c = live.covers in
      let off = base + p * r.chunk_size in
      let inside = mul_mono p (r.total_parts - 1) r.chunk_size (omega arith) in
      ap (◌++◌ (share content start end r.chunk_size off)) (
        ap (λ x. slice x (end + 1) content) (omega (arith, c.first))
        ∙ slice_from_min (off + r.chunk_size) (end + 1) content)
      ∙ slice-append (max start off) (min (off + r.chunk_size) (end + 1)) (end + 1) content
          (omega (arith, inside, c.last, c.first, c.sized)) (omega arith)

  -- A batch gives the next bytes of the range, and never fails.
  pub fetch_from-from_on :
      (rounds i : ℕ) (r : MultiReader)
      → Live start end base r
      → start ≤ end
      → (bs : List (List ℕ)) × (fetch_from chunk rounds i r ≡ some bs)
        × (concat bs ++ from_on content start end (r.offset + (i + rounds) * r.chunk_size)
            ≡ from_on content start end (r.offset + i * r.chunk_size))
  fetch_from-from_on zero i r live le = (
    [],
    fetch_from-none i r,
    ap (λ k. from_on content start end (r.offset + k * r.chunk_size)) (add-zero i),
  )
  fetch_from-from_on (suc rounds) i r live le = elim (dec_lt (r.current_part + i) r.total_parts) [
    | no over ↦ (
      [],
      fetch_from-over (suc rounds) i r (omega arith),
      slice_empty _ _ content (
            omega (
              arith,
              beyond i r live (omega arith),
              mul_mono i (i + suc rounds) r.chunk_size (omega arith),
            ))
          ∙ sym (slice_empty _ _ content (omega (arith, beyond i r live (omega arith)))),
    )
    | yes more ↦
        let (bs, e, left) = fetch_from-from_on rounds (i + 1) r live le in
        let p = r.current_part + i in
        let place : base + p * r.chunk_size ≡ r.offset + i * r.chunk_size =
          omega (arith, live.aligned) in
        (
          _,
          fetch_from-more rounds i r bs live.aligned more e,
          append_assoc
                (cut_chunk r p (
                  slice (r.offset + i * r.chunk_size) (r.offset + i * r.chunk_size + r.chunk_size)
                    content))
                (concat bs) _
              ∙ ap₂ ◌++◌
                  (ap (λ o. cut_chunk r p (slice o (o + r.chunk_size) content)) (sym place)
                    ∙ cut_chunk-share content start end base p r live.covers more)
                  (ap (λ k. concat bs ++ from_on content start end (r.offset + k * r.chunk_size))
                      (omega arith)
                    ∙ left
                    ∙ ap (from_on content start end) (omega (arith, place)))
              ∙ share-from_on p r live le more
              ∙ ap (from_on content start end) place,
        )
  ]

-- What the functions behind the actions did, where they did not wait.
module _ (chunk : ℕ → ℕ → Option (List ℕ)) where
  next_batch-some :
      (box : List (List ℕ)) (r : MultiReader) {bs : List (List ℕ)}
      → next_batch chunk box r ≡ some bs
      → (box ≡ []) × (fetch_batch chunk r ≡ some bs)
  unfolding next_batch
  next_batch-some [] r h = (refl, ground arith)
  next_batch-some (b ∷ box) r h = cc

send-some :
    (box : List (List ℕ)) (r : MultiReader) {r' : MultiReader}
    → send box r ≡ some r'
    → (b : List ℕ) × (rest : List (List ℕ)) × (box ≡ b ∷ rest)
      × (r' ≡ record r { buffer_chan = r.buffer_chan ++ b ∷ []; outbox = rest })
unfolding send
send-some [] r h = cc
send-some (b ∷ rest) r h = (b, rest, refl, ground arith)

receive-some :
    (box : List (List ℕ)) (r : MultiReader) {r' : MultiReader}
    → receive box r ≡ some r'
    → (b : List ℕ) × (rest : List (List ℕ)) × (box ≡ b ∷ rest)
      × (r' ≡ record r { buffer_chan = rest; cur = record { buf = b; offset = 0 } })
unfolding receive
receive-some [] r h = cc
receive-some (b ∷ rest) r h = (b, rest, refl, ground arith)

-- What is still owed: the current buffer, the channel, the batch that is being sent, and the range
-- that is not yet fetched.
abbrev pub owed : List ℕ → (start end : ℕ) → MultiReader → List ℕ
owed content start end r =
    contents r.cur
    ++ (concat r.buffer_chan ++ (concat r.outbox ++ from_on content start end r.offset))

module _ (content : List ℕ) (start end base : ℕ) where
  -- An action that gave `bytes`.
  pub record Keeps (r : MultiReader) (bytes : List ℕ) (r' : MultiReader) : Type 0 where
    pub live : Live start end base r'
    pub same : bytes ++ owed content start end r' ≡ owed content start end r
    pub count : r'.limit ≡ r.limit - length bytes

  pub send-Keeps :
      (r r' : MultiReader) → Live start end base r → send r.outbox r ≡ some r' → Keeps r [] r'
  send-Keeps r r' live h =
      let (b, rest, e, e') = send-some r.outbox r h in
      rw e' (record {
        live = record { covers = live.covers; aligned = live.aligned };
        same =
            ap (λ x. contents r.cur ++ x)
              (ap (λ x. x ++ (concat rest ++ from_on content start end r.offset))
                  (concat-append r.buffer_chan (b ∷ [])
                    ∙ ap (◌++◌ (concat r.buffer_chan)) (append-nil b))
                ∙ append_assoc (concat r.buffer_chan) b _
                ∙ ap (◌++◌ (concat r.buffer_chan)) (
                    sym (append_assoc b (concat rest) _)
                    ∙ ap (λ x. concat x ++ from_on content start end r.offset) (sym e)));
        count = omega arith;
      })

  pub copy_out-Keeps :
      (k : ℕ) (r : MultiReader) → Live start end base r → Keeps r (copy_out k r).0 (copy_out k r).1
  unfolding copy_out increment
  copy_out-Keeps k r live = record {
    live = record { covers = live.covers; aligned = live.aligned };
    same =
        sym (append_assoc (take k (contents r.cur)) _ _)
        ∙ ap
            (λ x.
              x
              ++ (concat r.buffer_chan ++ (concat r.outbox ++ from_on content start end r.offset)))
            (ap (◌++◌ (take k (contents r.cur)))
                (sym (drop-drop (length (take k (contents r.cur))) r.cur.offset r.cur.buf))
              ∙ take_rest k (contents r.cur));
    count = refl;
  }

  pub receive-Keeps :
      (k : ℕ) (r r' : MultiReader)
      → Live start end base r
      → contents r.cur ≡ []
      → receive r.buffer_chan r ≡ some r'
      → Keeps r (copy_out k r').0 (copy_out k r').1
  receive-Keeps k r r' live empty h =
      let (b, rest, e, e') = receive-some r.buffer_chan r h in
      let there : Live start end base r' =
        rw e' (record { covers = live.covers; aligned = live.aligned }) in
      let kept = copy_out-Keeps k r' there in
      record {
        live = kept.live;
        same =
            kept.same
            ∙ ap (owed content start end) e'
            ∙ ap
                (λ x. x ++ (concat rest ++ (concat r.outbox ++ from_on content start end r.offset)))
                (drop_zero b)
            ∙ sym (append_assoc b (concat rest) _)
            ∙ ap (λ x. concat x ++ (concat r.outbox ++ from_on content start end r.offset)) (sym e)
            ∙ ap
                (λ x.
                  x
                  ++ (concat r.buffer_chan
                      ++ (concat r.outbox ++ from_on content start end r.offset)))
                (sym empty);
        count = kept.count ∙ ap (λ (x : MultiReader). x.limit - length (copy_out k r').0) e';
      }

  pub fetch-Keeps :
      (chunk : ℕ → ℕ → Option (List ℕ)) (gives : GivesChunks chunk content) (r : MultiReader)
      (bs : List (List ℕ))
      → start ≤ end
      → Live start end base r
      → next_batch chunk r.outbox r ≡ some bs
      → Keeps r [] (moved bs r)
  unfolding moved fetch_batch
  fetch-Keeps chunk gives r bs le live h =
      let (idle, fetched) = next_batch-some chunk r.outbox r h in
      let (bs', e, left) =
        fetch_from-from_on chunk content gives start end base r.concurrency 0 r live le in
      let same_batch : bs ≡ bs' = some-injective bs bs' (sym fetched ∙ e) in
      record {
        live = record { covers = live.covers; aligned = omega (arith, live.aligned) };
        same =
            ap (λ x. contents r.cur ++ (concat r.buffer_chan ++ x))
              (ap
                  (λ x.
                    concat x ++ from_on content start end (r.offset + r.chunk_size * r.concurrency))
                  same_batch
                ∙ ap (λ x. concat bs' ++ from_on content start end x) (omega arith)
                ∙ left
                ∙ ap (from_on content start end) (omega arith)
                ∙ ap (λ x. concat x ++ from_on content start end r.offset) (sym idle));
        count = omega arith;
      }
