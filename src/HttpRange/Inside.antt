-- ===== src/HttpRange/Inside.antt =====
-- The ranges that are parsed lie inside the file.

use teldrive_easy.Prelude.{
  ℕ, ◌+◌, ◌≤◌, ◌≡◌, ◌≢◌, refl, sym, ap, ◌∙◌, true, false, ◌||◌, List, [], ◌∷◌, Option, none, some,
  arith, if◌then◌else◌, subst, Bool-cases, Option-cases, inl, inr, drop, ltb-true,
}
use teldrive_easy.Prelude.Int.{ℤ, pos, ◌≤ℤ◌, ◌-ℤ◌, ltb_ℤ, -ℤ_parts}
use teldrive_easy.Text.{Text, index, split, split_head, split_tail}
use teldrive_easy.HttpRange.{
  Range, parsed, invalid, clip, one_range, add_range, element, elements, outcome, parse, parse_int,
  minus, comma, equals,
}

-- A range of a file of so many bytes.
abbrev pub Inside : ℤ → Range → Type 0
Inside size r = (pos 0 ≤ℤ r.start) × (r.start ≤ℤ r.end) × (ltb_ℤ r.end size ≡ true)

abbrev pub AllInside : ℤ → List Range → Type 0
AllInside size [] = 0 ≤ 0
AllInside size (r ∷ rs) = Inside size r × AllInside size rs

abbrev pub Fits : ℤ → Option Range → Type 0
Fits size none = 0 ≤ 0
Fits size (some r) = Inside size r

ltb_ℤ_false : (a b : ℤ) → ltb_ℤ a b ≡ false → b ≤ℤ a
ltb_ℤ_false a b h = ground arith

before : (size : ℤ) → ltb_ℤ (size -ℤ pos 1) size ≡ true
before size = ltb-true (omega (arith, -ℤ_parts size (pos 1)))

clip-Fits : (size start end : ℤ) → Fits size (clip size start end)
unfolding clip
clip-Fits size start end = cut (if ltb_ℤ end size then end else size -ℤ pos 1) last_before
  where
    last_before : ltb_ℤ (if ltb_ℤ end size then end else size -ℤ pos 1) size ≡ true
    last_before = elim (Bool-cases (ltb_ℤ end size)) [
      | inl e ↦ ap (λ b. ltb_ℤ (if b then end else size -ℤ pos 1) size) e ∙ e
      | inr e ↦ ap (λ b. ltb_ℤ (if b then end else size -ℤ pos 1) size) e ∙ before size
    ]

    cut :
        (last : ℤ)
        → ltb_ℤ last size ≡ true
        → Fits size (
            if ltb_ℤ last start || ltb_ℤ start (pos 0)
            then none
            else some (record { start = start; end = last }))
    cut last h = elim (Bool-cases (ltb_ℤ last start)) [
      | inl e ↦ rw e (omega arith)
      | inr e ↦ elim (Bool-cases (ltb_ℤ start (pos 0))) [
        | inl e' ↦ rw (e, e') (omega arith)
        | inr e' ↦ rw (e, e') (ltb_ℤ_false start (pos 0) e', ltb_ℤ_false last start e, h)
      ]
    ]

one_range-Fits : (size : ℤ) (a b : Option ℤ) → Fits size (one_range size a b)
unfolding one_range
one_range-Fits size none none = omega arith
one_range-Fits size none (some end) = clip-Fits size (size -ℤ end) (size -ℤ pos 1)
one_range-Fits size (some start) none = clip-Fits size start (size -ℤ pos 1)
one_range-Fits size (some start) (some end) = clip-Fits size start end

add_range-AllInside :
    (size : ℤ) (r : Option Range) (rs : List Range)
    → Fits size r
    → AllInside size rs
    → AllInside size (add_range r rs)
unfolding add_range
add_range-AllInside size none rs h hs = hs
add_range-AllInside size (some r) rs h hs = (h, hs)

abbrev pub Good : ℤ → Option (List Range) → Type 0
Good size none = 0 ≤ 0
Good size (some rs) = AllInside size rs

abbrev pub more : Option (Option Range) → Option (List Range) → Option (List Range)
more o rest = elim o [
  | none ↦ none
  | some r ↦ elim rest [ none ↦ none | some rs ↦ some (add_range r rs) ]
]

FitsElement : ℤ → Option (Option Range) → Type 0
FitsElement size none = 0 ≤ 0
FitsElement size (some r) = Fits size r

element-Fits :
    (size : ℤ) (first : Text) (rest : List Text) → FitsElement size (element size first rest)
unfolding element FitsElement
element-Fits size first [] = omega arith
element-Fits size first (second ∷ _) = one_range-Fits size (parse_int first) (parse_int second)

more-Good :
    (size : ℤ) (o : Option (Option Range)) (rest : Option (List Range))
    → FitsElement size o
    → Good size rest
    → Good size (more o rest)
unfolding FitsElement
more-Good size none rest h g = omega arith
more-Good size (some r) none h g = omega arith
more-Good size (some r) (some rs) h g = add_range-AllInside size r rs h g

elements-Good : (size : ℤ) (vs : List Text) → Good size (elements size vs)
unfolding elements
elements-Good size [] = omega arith
elements-Good size (v ∷ vs) =
    more-Good size (element size (split_head minus v) (split_tail minus v)) (elements size vs)
      (element-Fits size (split_head minus v) (split_tail minus v)) (elements-Good size vs)

outcome-Good :
    (size : ℤ) (o : Option (List Range)) (rs : List Range)
    → Good size o
    → outcome o ≡ parsed rs
    → AllInside size rs × (rs ≢ [])
unfolding outcome
outcome-Good size none rs g h = cc
outcome-Good size (some []) rs g h = cc
outcome-Good size (some (r ∷ rs')) rs g h =
    let same : r ∷ rs' ≡ rs = ground arith in
    (subst (AllInside size) same g, λ e. cons_ne (same ∙ e))
  where
    cons_ne : r ∷ rs' ≡ [] → ⊥
    cons_ne e = cc

parse_at :
    (header : Text) (size : ℤ) (i : ℕ)
    → index equals header ≡ some i
    → parse header size ≡ outcome (elements size (split comma (drop (i + 1) header)))
unfolding parse
parse_at header size i e = rw (e, parse) refl

parse_without :
    (header : Text) (size : ℤ) → index equals header ≡ none → parse header size ≡ invalid
unfolding parse
parse_without header size e = rw (e, parse) refl

invalid_only : (rs : List Range) → invalid ≡ parsed rs → ⊥
invalid_only rs h = cc

-- Whatever the header, each range that is parsed starts at 0 or later, does not end before it
-- starts, and ends before the size; and there is one at least.
pub parse-Inside :
    (header : Text) (size : ℤ) (rs : List Range)
    → parse header size ≡ parsed rs
    → AllInside size rs × (rs ≢ [])
parse-Inside header size rs h = elim (Option-cases (index equals header)) [
  | inl e ↦ absurd (invalid_only rs (sym (parse_without header size e) ∙ h))
  | inr (i, e) ↦
      outcome-Good size (elements size (split comma (drop (i + 1) header))) rs
        (elements-Good size (split comma (drop (i + 1) header)))
        (sym (parse_at header size i e) ∙ h)
]
