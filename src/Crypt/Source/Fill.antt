-- ===== src/Crypt/Source/Fill.antt =====
-- What `readFill` does does not depend on how the reader splits its bytes.
use teldrive_easy.Prelude.{
  ℕ, zero, suc, ◌+◌, ◌-◌, ◌<◌, ◌≤◌, min, Bool, ◌&&◌, true, false, List, [], ◌∷◌, ◌++◌, Option, none,
  some, length, take, drop, ltb, if◌then◌else◌, ◌≡◌, refl, arith, ◌⊎◌, inl, inr, length-take,
  length-drop, dec_lt, append_assoc, append-nil, length-append, drop_all, take_zero, drop_zero, sym,
  ap, subst₂, ◌∙◌, Bool-cases, List-cases, take-nil, drop-nil,
}
use native.Mathlib.Nat.{sub-zero}
use teldrive_easy.Crypt.Errors.{Error}
use teldrive_easy.Crypt.Source.{Source, read, fill_loop, read_fill, is_empty, is_none}

-- The error that a reader may report with `rest` left: none, or its last one if that is all.
abbrev pub Reports : Error → List ℕ → Option Error → Type 0
Reports tail rest e = (e ≡ none) ⊎ ((rest ≡ []) × (e ≡ some tail))

-- A reader after a read: the same but for the bytes and the schedule.
pub record Follows (s : Source) (bytes : List ℕ) (t : Source) : Type 0 where
  pub bytes_left : t.bytes ≡ bytes
  pub same_tail : t.tail ≡ s.tail
  pub same_eager : t.eager ≡ s.eager

suc_sub_suc : (a b : ℕ) → a - b ≡ suc a - suc b
suc_sub_suc a b = omega arith

-- A prefix in two steps, the second counted from what the first gave.
take_split :
    (n m : ℕ) (bs : List ℕ)
    → n ≤ m
    → take m bs ≡ take n bs ++ take (m - length (take n bs)) (drop n bs)
unfolding take drop
take_split zero m bs h = rw (sub-zero m)
take_split (suc n) zero bs h = absurd (omega arith)
take_split (suc n) (suc m) [] h = sym (take-nil (suc m - 0))
take_split (suc n) (suc m) (b ∷ bs) h =
    ap (◌∷◌ b) (take_split n m bs (omega arith) ∙ rw (suc_sub_suc m (length (take n bs))))

drop_split : (n m : ℕ) (bs : List ℕ) → n ≤ m → drop m bs ≡ drop (m - length (take n bs)) (drop n bs)
unfolding take drop
drop_split zero m bs h = rw (sub-zero m)
drop_split (suc n) zero bs h = absurd (omega arith)
drop_split (suc n) (suc m) [] h = sym (drop-nil (suc m - 0))
drop_split (suc n) (suc m) (b ∷ bs) h =
    drop_split n m bs (omega arith) ∙ rw (suc_sub_suc m (length (take n bs)))

-- What `readFill` promises, from the bytes `acc` that are in the buffer already.
pub record Filled (k : ℕ) (acc : List ℕ) (s : Source) (r : List ℕ × Option Error × Source)
    : Type 0 where
  pub got : r.0 ≡ acc ++ take (k - length acc) s.bytes
  pub left : Follows s (drop (k - length acc) s.bytes) r.2
  pub report : Reports s.tail (drop (k - length acc) s.bytes) r.1
  pub short : length acc + length s.bytes < k → r.1 ≡ some s.tail

-- A read of `n` bytes, and what comes after it.
Filled-step :
    (k n : ℕ) (acc : List ℕ) (s t : Source) (r : List ℕ × Option Error × Source)
    → length acc + n ≤ k
    → Follows s (drop n s.bytes) t
    → Filled k (acc ++ take n s.bytes) t r
    → Filled k acc s r
Filled-step k n acc s t r h f g =
    let size : k - length (acc ++ take n s.bytes) ≡ k - length acc - length (take n s.bytes) =
      omega (arith, length-append acc (take n s.bytes)) in
    let gone = drop_split n (k - length acc) s.bytes (omega arith) in
    let left : drop (k - length (acc ++ take n s.bytes)) t.bytes ≡ drop (k - length acc) s.bytes =
      rw (f.bytes_left, size) (sym gone) in
    record {
      got =
          g.got
          ∙ rw (f.bytes_left, size, take_split n (k - length acc) s.bytes (omega arith))
              (append_assoc acc _ _);
      left = record {
        bytes_left = g.left.bytes_left ∙ left;
        same_tail = g.left.same_tail ∙ f.same_tail;
        same_eager = g.left.same_eager ∙ f.same_eager;
      };
      report = subst₂ (λ x y. Reports x y r.1) f.same_tail left g.report;
      short = λ few.
          g.short (
            omega (
              arith,
              length-append acc (take n s.bytes),
              length-take n s.bytes,
              length-drop n s.bytes,
              ap length f.bytes_left,
            ))
          ∙ ap some f.same_tail;
    }

-- Nothing is left to do: the buffer is full, or the end was reported.
Filled-done :
    (k : ℕ) (acc : List ℕ) (e : Option Error) (s : Source)
    → Reports s.tail s.bytes e
    → length acc ≤ k
    → (k ≤ length acc) ⊎ ((s.bytes ≡ []) × (e ≡ some s.tail))
    → Filled k acc s (acc, e, s)
Filled-done k acc e s rep h (inl full) =
    let none_left : k - length acc ≡ 0 = omega arith in
    record {
      got = rw (none_left, take_zero s.bytes) (sym (append-nil acc));
      left = record {
        bytes_left = rw (none_left, drop_zero s.bytes);
        same_tail = refl;
        same_eager = refl;
      };
      report = rw (none_left, drop_zero s.bytes) rep;
      short = λ few. absurd (omega arith);
    }
Filled-done k acc e s rep h (inr (empty, last)) = record {
  got = rw (empty, take-nil (k - length acc)) (sym (append-nil acc));
  left = record {
    bytes_left = rw (empty, drop-nil (k - length acc));
    same_tail = refl;
    same_eager = refl;
  };
  report = inr (rw (empty, drop-nil (k - length acc)), last);
  short = λ few. last;
}

-- What a read of a reader with bytes left does: it gives the first `size` of them.
pub record Step (k : ℕ) (s : Source) (r : List ℕ × Option Error × Source) : Type 0 where
  pub size : ℕ
  pub within : size ≤ k
  pub gives : r.0 ≡ take size s.bytes
  pub follows : Follows s (drop size s.bytes) r.2
  pub report : Reports s.tail (drop size s.bytes) r.1
  pub progress : ((size ≡ k) × (s.schedule ≡ [])) ⊎ (suc (length r.2.schedule) ≡ length s.schedule)

at_end_Reports :
    (eager : Bool) (tail : Error) (rest : List ℕ)
    → Reports tail rest (if eager && is_empty rest then some tail else none)
unfolding is_empty
at_end_Reports true tail [] = inr (refl, refl)
at_end_Reports true tail (x ∷ rest) = inl refl
at_end_Reports false tail rest = inl refl

read-Step :
    (k : ℕ) (s : Source) (b : ℕ) (bs : List ℕ) (ns : List ℕ)
    → s.bytes ≡ b ∷ bs
    → s.schedule ≡ ns
    → Step k s (read k s)
unfolding read
read-Step k s b bs [] full empty =
    rw (full, empty, read)
      (record {
        size = k;
        within = omega arith;
        gives = refl;
        follows = record { bytes_left = refl; same_tail = refl; same_eager = refl };
        report = at_end_Reports s.eager s.tail (drop k (b ∷ bs));
        progress = inl (refl, refl);
      })
read-Step k s b bs (n ∷ ns) full sched =
    rw (full, sched, read)
      (record {
        size = min k n;
        within = omega arith;
        gives = refl;
        follows = record { bytes_left = refl; same_tail = refl; same_eager = refl };
        report = at_end_Reports s.eager s.tail (drop (min k n) (b ∷ bs));
        progress = inr refl;
      })

read_end : (k : ℕ) (s : Source) → s.bytes ≡ [] → read k s ≡ ([], some s.tail, s)
unfolding read
read_end k s h = rw (h, read)

-- Nothing is left to do, or the fuel covers what is left.
abbrev Done : ℕ → List ℕ → Option Error → Source → Type 0
Done k acc e s = (k ≤ length acc) ⊎ ((s.bytes ≡ []) × (e ≡ some s.tail))

abbrev Ready : ℕ → ℕ → List ℕ → Option Error → Source → Type 0
Ready fuel k acc e s =
    Done k acc e s ⊎ (((s.bytes ≡ []) × (1 ≤ fuel)) ⊎ (2 + length s.schedule ≤ fuel))

-- The loop stops where the buffer is full or an error was reported, and else goes round.
fill_loop_stop :
    (fuel k : ℕ) (acc : List ℕ) (e : Option Error) (s : Source)
    → ((ltb (length acc) k && is_none e) ≡ false)
    → fill_loop fuel k acc e s ≡ (acc, e, s)
unfolding fill_loop
fill_loop_stop zero k acc e s h = refl
fill_loop_stop (suc fuel) k acc e s h = rw h

fill_loop_next :
    (fuel k : ℕ) (acc : List ℕ) (e : Option Error) (s : Source)
    → ((ltb (length acc) k && is_none e) ≡ true)
    → let r = read (k - length acc) s in
      fill_loop (suc fuel) k acc e s ≡ fill_loop fuel k (acc ++ r.0) r.1 r.2
unfolding fill_loop
fill_loop_next fuel k acc e s h = rw h

fill_loop-zero :
    (k : ℕ) (acc : List ℕ) (e : Option Error) (s : Source) → fill_loop zero k acc e s ≡ (acc, e, s)
unfolding fill_loop
fill_loop-zero k acc e s = refl

stopped :
    (k : ℕ) (acc : List ℕ) (e : Option Error) (s : Source)
    → Reports s.tail s.bytes e
    → ((ltb (length acc) k && is_none e) ≡ false)
    → Done k acc e s
unfolding is_none
stopped k acc e s rep h = ground arith

going :
    (k : ℕ) (acc : List ℕ) (e : Option Error)
    → ((ltb (length acc) k && is_none e) ≡ true)
    → (length acc < k) × (e ≡ none)
unfolding is_none
going k acc e h = ground arith

-- After a read that gave `size` bytes the rest of the loop is ready.
Ready-step :
    (fuel k size : ℕ) (acc : List ℕ) (s : Source) (r : List ℕ × Option Error × Source)
    → length acc + size ≤ k
    → Follows s (drop size s.bytes) r.2
    → ((size ≡ k - length acc) × (s.schedule ≡ []))
      ⊎ (suc (length r.2.schedule) ≡ length s.schedule)
    → 2 + length s.schedule ≤ suc fuel
    → Ready fuel k (acc ++ take size s.bytes) r.1 r.2
Ready-step fuel k size acc s r h f (inr shorter) enough = inr (inr (omega arith))
Ready-step fuel k size acc s r h f (inl (whole, empty)) enough =
    elim (dec_lt (length s.bytes) size) [
      | yes few ↦ inr (inl (f.bytes_left ∙ drop_all size s.bytes (omega arith), omega arith))
      | no many ↦
          inl (inl (omega (arith, length-append acc (take size s.bytes), length-take size s.bytes)))
    ]

fill_end :
    (fuel k : ℕ) (acc : List ℕ) (s : Source)
    → s.bytes ≡ []
    → length acc ≤ k
    → let r = read (k - length acc) s in Filled k acc s (fill_loop fuel k (acc ++ r.0) r.1 r.2)
unfolding is_none
fill_end fuel k acc s empty h =
    rw
      (
        read_end (k - length acc) s empty,
        append-nil acc,
        fill_loop_stop fuel k acc (some s.tail) s (ground arith),
      )
      (Filled-done k acc (some s.tail) s (inr (empty, refl)) h (inr (empty, refl)))

enough :
    (fuel k : ℕ) (acc : List ℕ) (e : Option Error) (s : Source) (b : ℕ) (bs : List ℕ)
    → Ready (suc fuel) k acc e s
    → length acc < k
    → e ≡ none
    → s.bytes ≡ b ∷ bs
    → 2 + length s.schedule ≤ suc fuel
enough fuel k acc e s b bs (inl (inl full)) room quiet more = absurd (omega arith)
enough fuel k acc e s b bs (inl (inr (empty, last))) room quiet more = cc
enough fuel k acc e s b bs (inr (inl (empty, _))) room quiet more = cc
enough fuel k acc e s b bs (inr (inr h)) room quiet more = h

fill_more :
    (fuel k : ℕ) (acc : List ℕ) (s : Source) (got : List ℕ) (e : Option Error) (t : Source)
    → length acc < k
    → Step (k - length acc) s (got, e, t)
    → 2 + length s.schedule ≤ suc fuel
    → ((acc' : List ℕ)
        → Reports t.tail t.bytes e
        → length acc' ≤ k
        → Ready fuel k acc' e t
        → Filled k acc' t (fill_loop fuel k acc' e t))
    → Filled k acc s (fill_loop fuel k (acc ++ got) e t)
fill_more fuel k acc s got e t room step h ih =
    Filled-step k step.size acc s t _ (omega (arith, step.within)) step.follows (
      rw (step.gives) (
        ih (acc ++ take step.size s.bytes)
          (subst₂ (λ x y. Reports x y e) (sym step.follows.same_tail) (sym step.follows.bytes_left)
            step.report)
          (omega (
            arith,
            length-append acc (take step.size s.bytes),
            length-take step.size s.bytes,
            step.within,
          ))
          (Ready-step fuel k step.size acc s (got, e, t) (omega (arith, step.within)) step.follows
            step.progress h)))

fill_loop-Filled :
    (fuel k : ℕ) (acc : List ℕ) (e : Option Error) (s : Source)
    → Reports s.tail s.bytes e
    → length acc ≤ k
    → Ready fuel k acc e s
    → Filled k acc s (fill_loop fuel k acc e s)
fill_loop-Filled zero k acc e s rep h (inl done) =
    rw (fill_loop-zero k acc e s) (Filled-done k acc e s rep h done)
fill_loop-Filled zero k acc e s rep h (inr (inl (empty, bad))) = absurd (omega arith)
fill_loop-Filled zero k acc e s rep h (inr (inr bad)) = absurd (omega arith)
fill_loop-Filled (suc fuel) k acc e s rep h ready =
    elim (Bool-cases (ltb (length acc) k && is_none e)) [
      | inr stop ↦
          rw (fill_loop_stop (suc fuel) k acc e s stop)
            (Filled-done k acc e s rep h (stopped k acc e s rep stop))
      | inl go ↦
          let r = read (k - length acc) s in
          let (room, quiet) = going k acc e go in
          rw (fill_loop_next fuel k acc e s go) (elim (List-cases s.bytes) [
            | inl empty ↦ fill_end fuel k acc s empty h
            | inr (b, bs, full) ↦
                let step = read-Step (k - length acc) s b bs s.schedule full refl in
                fill_more fuel k acc s r.0 r.1 r.2 room step
                  (enough fuel k acc e s b bs ready room quiet full)
                  (λ acc' rep' h' ready'. fill_loop-Filled fuel k acc' r.1 r.2 rep' h' ready')
          ])
    ]

-- `readFill` gives the first `k` bytes of the reader and leaves the others, whatever sizes its
-- reads come in; if fewer than `k` bytes are there, it reports the reader's last error.
pub read_fill-Filled : (k : ℕ) (s : Source) → Filled k [] s (read_fill k s)
unfolding read_fill
read_fill-Filled k s =
    fill_loop-Filled (2 + length s.schedule) k [] none s (inl refl) (omega arith)
      (inr (inr (omega arith)))
