-- ===== src/Reader/Multi/Runs.antt =====
-- Every interleaving of the two goroutines of a stream.
use mathlib.Core.Option.{some-injective, none-ne-some}
use teldrive_easy.Prelude.{
  ℕ, ◌+◌, ◌-◌, ◌%◌, ◌<◌, ◌≤◌, ◌≡◌, refl, sym, ap, ◌∙◌, Option, some, none, List, [], ◌∷◌, ◌++◌,
  arith, dec_lt, append_assoc, append-nil, length,
}
use teldrive_easy.Prelude.Slices.{slice}
use teldrive_easy.Reader.Multi.{
  MultiReader, contents, new_multi_reader, next_batch, moved, send, receive, copy_out, read, taken,
  reported, unreported, Action, fetches, sends, reads, step, run,
}
use teldrive_easy.Reader.Multi.Cuts.{new_multi_reader-Covers}
use mathlib.Core.Option
use teldrive_easy.Prelude.{
  length-eq-zero, length-append, Bool-cases, leb-true, leb-false, inl, inr, true, false, subst,
  Bool, leb, drop_all, Option-cases, drop-nil,
}
use teldrive_easy.Prelude.Slices.{length-slice}
use teldrive_easy.Reader.Multi.{is_empty}
use teldrive_easy.Reader.Chunks.{calculate_chunk_size}
use teldrive_easy.Reader.Multi.Owed.{
  GivesChunks, Live, from_on, owed, Keeps, copy_out-Keeps, receive-Keeps, send-Keeps, fetch-Keeps,
}

-- Inversion of `Option.map`.
map-eq-some {ℓ κ} :
    {A : Type ℓ} {B : Type κ} (f : A → B) (o : Option A) {b : B}
    → Option.map f o ≡ some b
    → (a : A) × (o ≡ some a) × (f a ≡ b)
map-eq-some f none h = cc
map-eq-some f (some a) h = (a, refl, some-injective (f a) _ h)

abbrev behind : List ℕ → List ℕ × MultiReader → List ℕ × MultiReader
behind bytes t = (bytes ++ t.0, t.1)

module _ (chunk : ℕ → ℕ → Option (List ℕ)) (content : List ℕ) (gives : GivesChunks chunk content)
    (start end base : ℕ) (le : start ≤ end) where
  pub used_up : (r : MultiReader) → is_empty r.cur ≡ true → contents r.cur ≡ []
  unfolding is_empty
  used_up r h = drop_all r.cur.offset r.cur.buf (ground arith)

  pub taken_waiting :
      (k : ℕ) (r : MultiReader)
      → 0 < r.limit
      → is_empty r.cur ≡ true
      → taken k r ≡ Option.map (copy_out k) (receive r.buffer_chan r)
  unfolding taken
  taken_waiting k r more e = rw (leb-false more, e)

  pub taken_held :
      (k : ℕ) (r : MultiReader)
      → 0 < r.limit
      → is_empty r.cur ≡ false
      → taken k r ≡ some (copy_out k r)
  unfolding taken
  taken_held k r more e = rw (leb-false more, e)

  taken_over : (k : ℕ) (r : MultiReader) → r.limit ≡ 0 → taken k r ≡ some ([], r)
  unfolding taken
  taken_over k r over = rw (leb-true {a = r.limit} {b = 0} (omega arith))

  taken-Keeps_more :
      (k : ℕ) (r r' : MultiReader) (bytes : List ℕ)
      → Live start end base r
      → 0 < r.limit
      → taken k r ≡ some (bytes, r')
      → Keeps content start end base r bytes r'
  taken-Keeps_more k r r' bytes live more h = elim (Bool-cases (is_empty r.cur)) [
    | inl empty ↦
        let (t, e, e') =
          map-eq-some (copy_out k) (receive r.buffer_chan r)
            (sym (taken_waiting k r more empty) ∙ h) in
        subst (λ x. Keeps content start end base r x.0 x.1) e'
          (receive-Keeps content start end base k r t live (used_up r empty) e)
    | inr held ↦
        subst (λ x. Keeps content start end base r x.0 x.1)
          (some-injective (copy_out k r) (bytes, r') (sym (taken_held k r more held) ∙ h))
          (copy_out-Keeps content start end base k r live)
  ]

  taken-Keeps :
      (k : ℕ) (r r' : MultiReader) (bytes : List ℕ)
      → Live start end base r
      → taken k r ≡ some (bytes, r')
      → Keeps content start end base r bytes r'
  taken-Keeps k r r' bytes live h = elim (dec_lt 0 r.limit) [
    | yes more ↦ taken-Keeps_more k r r' bytes live more h
    | no over ↦
        subst (λ x. Keeps content start end base r x.0 x.1)
          (some-injective ([], r) (bytes, r') (sym (taken_over k r (omega arith)) ∙ h))
          (record { live = live; same = refl; count = omega arith })
  ]

  pub read_step : (k : ℕ) (r : MultiReader) → Option.map unreported (read k r) ≡ taken k r
  unfolding read reported unreported
  read_step k r = elim (Option-cases (taken k r)) [
    | inl e ↦ ap (λ o. Option.map unreported (Option.map reported o)) e ∙ sym e
    | inr (x, e) ↦ ap (λ o. Option.map unreported (Option.map reported o)) e ∙ sym e
  ]

  read-taken :
      (k : ℕ) (r r' : MultiReader) (bytes : List ℕ) (is_end : Bool)
      → read k r ≡ some (bytes, is_end, r')
      → (taken k r ≡ some (bytes, r')) × (leb r'.limit 0 ≡ is_end)
  unfolding read reported
  read-taken k r r' bytes is_end h =
      let ((got, t), e, e') = map-eq-some reported (taken k r) h in
      (
        e ∙ ap (λ (x : List ℕ × Bool × MultiReader). some (x.0, x.2)) e',
        ap (λ (x : List ℕ × Bool × MultiReader). leb x.2.limit 0) (sym e')
            ∙ ap (λ (x : List ℕ × Bool × MultiReader). x.1) e',
      )

  step-Keeps :
      (a : Action) (r r' : MultiReader) (bytes : List ℕ)
      → Live start end base r
      → step chunk a r ≡ some (bytes, r')
      → Keeps content start end base r bytes r'
  unfolding step
  step-Keeps fetches r r' bytes live h =
      let (bs, e, e') = map-eq-some (λ b. ([], moved b r)) (next_batch chunk r.outbox r) h in
      subst (λ x. Keeps content start end base r x.0 x.1) e'
        (fetch-Keeps content start end base chunk gives r bs le live e)
  step-Keeps sends r r' bytes live h =
      let (t, e, e') = map-eq-some (λ x. ([], x)) (send r.outbox r) h in
      subst (λ x. Keeps content start end base r x.0 x.1) e'
        (send-Keeps content start end base r t live e)
  step-Keeps (reads k) r r' bytes live h = taken-Keeps k r r' bytes live (sym (read_step k r) ∙ h)

  nothing-Keeps : (r : MultiReader) → Live start end base r → Keeps content start end base r [] r
  nothing-Keeps r live = record { live = live; same = refl; count = omega arith }

  andthen-Keeps :
      (r s t : MultiReader) (xs ys : List ℕ)
      → Keeps content start end base r xs s
      → Keeps content start end base s ys t
      → Keeps content start end base r (xs ++ ys) t
  andthen-Keeps r s t xs ys first second = record {
    live = second.live;
    same = append_assoc xs ys (owed content start end t) ∙ ap (◌++◌ xs) second.same ∙ first.same;
    count = omega (arith, first.count, second.count, length-append xs ys);
  }

  run_stuck :
      (a : Action) (as' : List Action) (r : MultiReader)
      → step chunk a r ≡ none
      → run chunk (a ∷ as') r ≡ none
  unfolding run
  run_stuck a as' r e = rw (e, run) refl

  run_moved :
      (a : Action) (as' : List Action) (r : MultiReader) (x : List ℕ × MultiReader)
      → step chunk a r ≡ some x
      → run chunk (a ∷ as') r ≡ Option.map (behind x.0) (run chunk as' x.1)
  unfolding run
  run_moved a as' r x e = rw (e, run) refl

  step_then :
      (a : Action) (as' : List Action) (r r' : MultiReader) (bytes : List ℕ)
      → run chunk (a ∷ as') r ≡ some (bytes, r')
      → (x : List ℕ × MultiReader) × (step chunk a r ≡ some x)
        × (Option.map (behind x.0) (run chunk as' x.1) ≡ some (bytes, r'))
  step_then a as' r r' bytes h = elim (Option-cases (step chunk a r)) [
    | inl e ↦ absurd (none-ne-some (bytes, r') (sym (run_stuck a as' r e) ∙ h))
    | inr (x, e) ↦ (x, e, sym (run_moved a as' r x e) ∙ h)
  ]

  pub run-Keeps :
      (as' : List Action) (r r' : MultiReader) (bytes : List ℕ)
      → Live start end base r
      → run chunk as' r ≡ some (bytes, r')
      → Keeps content start end base r bytes r'
  unfolding run
  run-Keeps [] r r' bytes live h =
      subst (λ x. Keeps content start end base r x.0 x.1) (some-injective ([], r) (bytes, r') h)
        (nothing-Keeps r live)
  run-Keeps (a ∷ as') r r' bytes live h =
      let (x, e, e') = step_then a as' r r' bytes h in
      let (t, e1, e2) = map-eq-some (behind x.0) (run chunk as' x.1) e' in
      let first = step-Keeps a r x.1 x.0 live e in
      subst (λ y. Keeps content start end base r y.0 y.1) e2
        (andthen-Keeps r x.1 t.1 x.0 t.0 first (run-Keeps as' x.1 t.1 t.0 first.live e1))

-- What a new reader owes.
new_owed :
    (content : List ℕ) (buffers concurrency start end : ℕ)
    → start ≤ end
    → owed content start end (new_multi_reader buffers concurrency start end)
      ≡ slice start (end + 1) content
unfolding new_multi_reader
new_owed content buffers concurrency start end le =
    let c = new_multi_reader-Covers buffers concurrency start end le in
    ap (λ x. x ++ from_on content start end (start - start % calculate_chunk_size start end))
      (drop-nil 0)
    ∙ ap (λ x. slice x (end + 1) content) (omega arith)

pub new_Live :
    (buffers concurrency start end : ℕ)
    → start ≤ end
    → let r = new_multi_reader buffers concurrency start end in Live start end r.offset r
unfolding new_multi_reader
new_Live buffers concurrency start end le = record {
  covers = new_multi_reader-Covers buffers concurrency start end le;
  aligned = omega arith;
}

new_limit :
    (buffers concurrency start end : ℕ)
    → (new_multi_reader buffers concurrency start end).limit ≡ end - start + 1
unfolding new_multi_reader
new_limit buffers concurrency start end = refl

-- What was got and what is owed are the range.
whole :
    (content : List ℕ) (buffers concurrency start end : ℕ) (bytes : List ℕ) (r : MultiReader)
    → start ≤ end
    → end < length content
    → let r0 = new_multi_reader buffers concurrency start end in
      Keeps content start end r0.offset r0 bytes r
      → (bytes ++ owed content start end r ≡ slice start (end + 1) content)
        × (length (owed content start end r) ≡ r.limit)
whole content buffers concurrency start end bytes r le inside kept =
    let all = kept.same ∙ new_owed content buffers concurrency start end le in
    let size =
      sym (length-append bytes (owed content start end r))
      ∙ ap length all
      ∙ length-slice start (end + 1) content (omega arith) (omega arith) in
    (all, omega (arith, size, kept.count, new_limit buffers concurrency start end))

-- Whatever the order in which the two goroutines of a stream act, for a source that gives the bytes
-- of a part and a range inside that part, the bytes that the caller has got are the first ones of
-- the range, in order and with none twice, and the rest of the range is what the stream still owes,
-- as many bytes as the limit.
pub run-new_multi_reader :
    (chunk : ℕ → ℕ → Option (List ℕ)) (content : List ℕ) (buffers concurrency start end : ℕ)
    (actions : List Action) (bytes : List ℕ) (r : MultiReader)
    → GivesChunks chunk content
    → start ≤ end
    → end < length content
    → run chunk actions (new_multi_reader buffers concurrency start end) ≡ some (bytes, r)
    → (bytes ++ owed content start end r ≡ slice start (end + 1) content)
      × (length (owed content start end r) ≡ r.limit)
run-new_multi_reader chunk content buffers concurrency start end actions bytes r gives le inside h =
    let r0 = new_multi_reader buffers concurrency start end in
    whole content buffers concurrency start end bytes r le inside (
      run-Keeps chunk content gives start end r0.offset le actions r0 r bytes
        (new_Live buffers concurrency start end le) h)

-- Where, after any such run, a read reports the end of the file, the bytes that the caller got
-- before and those of this read are exactly the range.
pub run-read_end :
    (chunk : ℕ → ℕ → Option (List ℕ)) (content : List ℕ) (buffers concurrency start end : ℕ)
    (actions : List Action) (bytes : List ℕ) (r : MultiReader) (k : ℕ) (more : List ℕ)
    (r' : MultiReader)
    → GivesChunks chunk content
    → start ≤ end
    → end < length content
    → run chunk actions (new_multi_reader buffers concurrency start end) ≡ some (bytes, r)
    → read k r ≡ some (more, true, r')
    → bytes ++ more ≡ slice start (end + 1) content
run-read_end chunk content buffers concurrency start end actions bytes r k more r' gives le inside h
      e =
    let r0 = new_multi_reader buffers concurrency start end in
    let kept =
      run-Keeps chunk content gives start end r0.offset le actions r0 r bytes
        (new_Live buffers concurrency start end le) h in
    let (got, spent) = read-taken chunk content gives start end r0.offset le k r r' more true e in
    let (all, rest) = whole content buffers concurrency start end (bytes ++ more) r' le inside (
      andthen-Keeps chunk content gives start end r0.offset le r0 r r' bytes more kept
        (taken-Keeps chunk content gives start end r0.offset le k r r' more kept.live got)) in
    let over : r'.limit ≡ 0 = ground arith in
    sym (append-nil (bytes ++ more))
    ∙ ap (◌++◌ (bytes ++ more)) (sym (length-eq-zero (owed content start end r') (rest ∙ over)))
    ∙ all
