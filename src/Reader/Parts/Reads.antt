-- ===== src/Reader/Parts/Reads.antt =====
-- Reading a range over all its parts.
use teldrive_easy.Prelude.{
  ℕ, suc, ◌+◌, ◌-◌, ◌<◌, ◌≤◌, ◌≡◌, refl, sym, ap, ◌∙◌, subst, List, [], ◌∷◌, ◌++◌, Option, none,
  some, ltb-true, ltb-false, leb-true, leb-false, length, get_elem?, arith, dec_lt, inl, inr, ◌⊎◌,
  List-cases, length-append, append_assoc, append-nil, length-eq-zero,
}
use teldrive_easy.Stream.{
  Serves, AllPositive, read_all, read_all-next, read_all-next_err, read_all-last,
}
use teldrive_easy.Reader.Ranges.{Range, gather, range_bytes}
use teldrive_easy.Reader.Parts.{
  Error, eof, Result, ok, Part, Reader, get_part_reader, placed, move_to_next_part, after_read,
  read,
}

elem_next : (x : Range) (xs : List Range) (i : ℕ) → get_elem? (x ∷ xs) (i + 1) ≡ get_elem? xs i
elem_next x xs i = let e : i + 1 ≡ suc i = omega arith in ap (get_elem? (x ∷ xs)) e

module _ {S : Type 0} (part_read : ℕ → S → List ℕ × Option Error × S) (open_part : Range → Result S)
    (Ready : List ℕ → S → Type 0)
    (serves : (k : ℕ) (pending : List ℕ) (s : S)
      → 0 < k
      → Ready pending s
      → Serves part_read Ready eof pending (part_read k s))
    (content : ℕ → List ℕ) where
  -- Each range from the place `at` on is of a part that is there and can be opened.
  abbrev pub Opens : List Part → List Range → Type 0
  Opens parts [] = 0 ≤ 0
  Opens parts (r ∷ rs) =
      (r.part_no < length parts)
      × ((s : S) × (open_part r ≡ ok s) × Ready (range_bytes content r) s)
      × Opens parts rs

  -- Where the reader stands: the ranges behind its place, what its part has left, and what remains.
  pub record At (pending : List ℕ) (later : List Range) (r : Reader part_read open_part)
      : Type 0 where
    pub ready : Ready pending r.reader
    pub behind : (i : ℕ) → get_elem? r.ranges (r.pos + 1 + i) ≡ get_elem? later i
    pub count : length r.ranges ≡ r.pos + 1 + length later
    pub opens : Opens r.parts later
    pub left : r.remaining ≡ length pending + length (gather content later)

  abbrev pub Parts : Type 0
  Parts = Reader part_read open_part

  -- What one read leaves: the bytes that are still to come, and a bound on the reads for them.
  pub record Standing (total : List ℕ) (m : ℕ) (r : Parts) : Type 0 where
    pub pending : List ℕ
    pub later : List Range
    pub at : At pending later r
    pub all : pending ++ gather content later ≡ total
    pub bound : length total + length later ≡ m

  Goes : List ℕ → ℕ → List ℕ × Option Error × Parts → Type 0
  Goes total m x =
      (rest : List ℕ) × (x.0 ++ rest ≡ total)
      × (((x.1 ≡ none) × ((m' : ℕ) × (m' < m) × Standing rest m' x.2))
          ⊎ ((x.1 ≡ some eof) × (rest ≡ [])))

  read_over :
      (k : ℕ) (r : Parts) → r.remaining ≡ 0 → read part_read open_part k r ≡ ([], some eof, r)
  unfolding read
  read_over k r h = rw (leb-true {a = r.remaining} {b = 0} (omega arith)) refl

  abbrev taken : ℕ → Parts → Parts
  taken k r = record r {
    reader = (part_read k r.reader).2;
    remaining = r.remaining - length (part_read k r.reader).0;
  }

  read_goes :
      (k : ℕ) (r : Parts) (e : Option Error)
      → 0 < r.remaining
      → (part_read k r.reader).1 ≡ e
      → read part_read open_part k r
        ≡ after_read part_read open_part (part_read k r.reader).0 e (taken k r)
  unfolding read
  read_goes k r e h h' =
      rw (leb-false {a = r.remaining} {b = 0} h)
        (ap (λ x. after_read part_read open_part (part_read k r.reader).0 x (taken k r)) h')

  after_none :
      (bytes : List ℕ) (r : Parts) → after_read part_read open_part bytes none r ≡ (bytes, none, r)
  unfolding after_read
  after_none bytes r = refl

  after_last :
      (bytes : List ℕ) (r : Parts)
      → r.remaining ≡ 0
      → after_read part_read open_part bytes (some eof) r ≡ (bytes, some eof, r)
  unfolding after_read
  after_last bytes r h = rw (ltb-false {a = 0} {b = r.remaining} (omega arith)) refl

  after_more :
      (bytes : List ℕ) (r : Parts) (x : Option Error × Parts)
      → 0 < r.remaining
      → move_to_next_part part_read open_part r ≡ x
      → after_read part_read open_part bytes (some eof) r ≡ (bytes, x.0, x.1)
  unfolding after_read
  after_more bytes r x h e =
      rw (ltb-true {a = 0} {b = r.remaining} h)
        (ap (λ (y : Option Error × Parts). (bytes, y.0, y.1)) e)

  pub part_there :
      (parts : List Part) (ranges : List Range) (pos : ℕ) (r : Range) (s : S)
      → get_elem? ranges pos ≡ some r
      → r.part_no < length parts
      → open_part r ≡ ok s
      → get_part_reader part_read open_part parts ranges pos ≡ ok s
  unfolding get_part_reader
  part_there parts ranges pos r s e h o = rw (e, get_part_reader, ltb-true h) o

  move_there :
      (r : Parts) (s : S)
      → r.pos + 1 < length r.ranges
      → get_part_reader part_read open_part r.parts r.ranges (r.pos + 1) ≡ ok s
      → move_to_next_part part_read open_part r ≡ (none, record r { pos = r.pos + 1; reader = s })
  unfolding move_to_next_part placed
  move_there r s h e =
      rw (ltb-true h) (ap (λ o. placed part_read open_part o (record r { pos = r.pos + 1 })) e)

  -- The part goes on.
  part_continues :
      (k m : ℕ) (total pending : List ℕ) (later : List Range) (r : Parts)
      → At pending later r
      → pending ++ gather content later ≡ total
      → length total + length later ≡ m
      → 0 < r.remaining
      → (part_read k r.reader).1 ≡ none
      → (rest : List ℕ) → (part_read k r.reader).0 ++ rest ≡ pending
      → Ready rest (part_read k r.reader).2
      → 0 < length (part_read k r.reader).0
      → Goes total m (read part_read open_part k r)
  unfolding Goes
  part_continues k m total pending later r at all bound more e rest split ready some_byte =
      let got = part_read k r.reader in
      let here =
        sym (append_assoc got.0 rest (gather content later))
        ∙ ap (λ p. p ++ gather content later) split
        ∙ all in
      subst (Goes total m) (sym (read_goes k r none more e ∙ after_none got.0 (taken k r))) (
        rest ++ gather content later,
        here,
        inl (
          refl,
          (
            length (rest ++ gather content later) + length later,
            omega (arith, ap length here, length-append got.0 (rest ++ gather content later)),
            record {
              pending = rest;
              later = later;
              at = record {
                ready = ready;
                behind = at.behind;
                count = at.count;
                opens = at.opens;
                left = omega (arith, at.left, ap length split, length-append got.0 rest);
              };
              all = refl;
              bound = refl;
            },
          ),
        ),
      )

  -- The last part is over.
  part_ends :
      (k m : ℕ) (total pending : List ℕ) (later : List Range) (r : Parts)
      → At pending later r
      → pending ++ gather content later ≡ total
      → 0 < r.remaining
      → (part_read k r.reader).1 ≡ some eof
      → (part_read k r.reader).0 ≡ pending
      → length (gather content later) ≡ 0
      → Goes total m (read part_read open_part k r)
  unfolding Goes
  part_ends k m total pending later r at all more e got none_later =
      let empty = length-eq-zero (gather content later) none_later in
      subst (Goes total m)
        (sym (
          read_goes k r (some eof) more e
          ∙ after_last (part_read k r.reader).0 (taken k r)
              (omega (arith, at.left, ap length got))))
        (
          [],
          append-nil (part_read k r.reader).0
              ∙ got
              ∙ sym (append-nil pending)
              ∙ ap (◌++◌ pending) (sym empty)
              ∙ all,
          inr (refl, refl),
        )

  -- The next part is opened.
  part_switches :
      (k m : ℕ) (total pending : List ℕ) (next : Range) (later : List Range) (r : Parts)
      → At pending (next ∷ later) r
      → pending ++ gather content (next ∷ later) ≡ total
      → length total + length (next ∷ later) ≡ m
      → 0 < r.remaining
      → (part_read k r.reader).1 ≡ some eof
      → (part_read k r.reader).0 ≡ pending
      → 0 < length (gather content (next ∷ later))
      → Goes total m (read part_read open_part k r)
  unfolding Goes
  part_switches k m total pending next later r at all bound more e got some_later =
      let (here, (s, opened, ready), opens) = at.opens in
      let moved = move_there (taken k r) s (omega (arith, at.count)) (
        part_there r.parts r.ranges (r.pos + 1) next s
          (ap (get_elem? r.ranges) (omega arith) ∙ at.behind 0) here opened) in
      subst (Goes total m)
        (sym (
          read_goes k r (some eof) more e
          ∙ after_more (part_read k r.reader).0 (taken k r) _
              (omega (arith, at.left, ap length got)) moved))
        (
          gather content (next ∷ later),
          ap (λ p. p ++ gather content (next ∷ later)) got ∙ all,
          inl (
            refl,
            (
              length (gather content (next ∷ later)) + length later,
              omega (arith, ap length all, length-append pending (gather content (next ∷ later))),
              record {
                pending = range_bytes content next;
                later = later;
                at = record {
                  ready = ready;
                  behind = λ i.
                      ap (get_elem? r.ranges) (omega arith)
                      ∙ at.behind (i + 1)
                      ∙ elem_next next later i;
                  count = omega (arith, at.count);
                  opens = opens;
                  left = omega (
                    arith,
                    at.left,
                    ap length got,
                    length-append (range_bytes content next) (gather content later),
                  );
                };
                all = refl;
                bound = refl;
              },
            ),
          ),
        )

  part_used_up :
      (k m : ℕ) (total : List ℕ) (r : Parts)
      → r.remaining ≡ 0
      → Standing total m r
      → Goes total m (read part_read open_part k r)
  unfolding Goes
  part_used_up k m total r over st =
      let empty = length-eq-zero total (
        omega (
          arith,
          ap length st.all,
          length-append st.pending (gather content st.later),
          st.at.left,
        )) in
      subst (Goes total m) (sym (read_over k r over)) ([], sym empty, inr (refl, refl))

  read-Goes :
      (k m : ℕ) (total : List ℕ) (r : Parts)
      → 0 < k
      → Standing total m r
      → Goes total m (read part_read open_part k r)
  read-Goes k m total r pos st = elim (dec_lt 0 r.remaining) [
    | no over ↦ part_used_up k m total r (omega arith) st
    | yes more ↦
        let v = serves k st.pending r.reader pos st.at.ready in
        elim v.outcome [
          | inl (e, ready, some_byte) ↦
              part_continues k m total st.pending st.later r st.at st.all st.bound more e v.rest
                v.split ready some_byte
          | inr (e, over) ↦
              let got =
                sym (append-nil (part_read k r.reader).0)
                ∙ ap (◌++◌ (part_read k r.reader).0) (sym over)
                ∙ v.split in
              elim (dec_lt 0 (length (gather content st.later))) [
                | no last ↦
                    part_ends k m total st.pending st.later r st.at st.all more e got (omega arith)
                | yes some_later ↦ elim (List-cases st.later) [
                  | inl none_later ↦
                      absurd (omega (arith, ap (λ l. length (gather content l)) none_later))
                  | inr (next, later, same) ↦
                      part_switches k m total st.pending next later r
                        (subst (λ l. At st.pending l r) same st.at)
                        (subst (λ l. st.pending ++ gather content l ≡ total) same st.all)
                        (subst (λ l. length total + length l ≡ m) same st.bound) more e got
                        (subst (λ l. 0 < length (gather content l)) same some_later)
                ]
              ]
        ]
  ]

  -- More reads than bytes and ranges collect everything.
  pub collects :
      (ks : List ℕ) (m : ℕ) (total : List ℕ) (r : Parts)
      → AllPositive ks
      → m < length ks
      → Standing total m r
      → ((read_all (read part_read open_part) ks r).0 ≡ total)
        × ((read_all (read part_read open_part) ks r).1 ≡ some eof)
  unfolding Goes
  collects [] m total r pos enough st = absurd (omega arith)
  collects (k ∷ ks) m total r pos enough st =
      let (rest, split, outcome) = read-Goes k m total r pos.0 st in
      let x = read part_read open_part k r in
      elim outcome [
        | inr (e, none_left) ↦
            let (bytes, last) = read_all-last (read part_read open_part) k ks r e in
            (bytes ∙ sym (append-nil x.0) ∙ ap (◌++◌ x.0) (sym none_left) ∙ split, last)
        | inl (e, (m', less, st')) ↦
            let (bytes, last) = collects ks m' rest x.2 pos.1 (omega arith) st' in
            (
              read_all-next (read part_read open_part) k ks r e ∙ ap (◌++◌ x.0) bytes ∙ split,
              read_all-next_err (read part_read open_part) k ks r e ∙ last,
            )
      ]
