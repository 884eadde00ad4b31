-- ===== src/HttpRange.antt =====
-- internal/http_range/range.go: the ranges that a Range header asks for.
pub mod Inside
use teldrive_easy.Prelude.{
  ℕ, zero, suc, ◌+◌, ◌-◌, ◌*◌, ◌^◌, ◌≡◌, Bool, true, false, ◌&&◌, ◌||◌, List, [], ◌∷◌, ◌++◌, Option,
  none, some, ltb, leb, ◌==◌, if◌then◌else◌, drop, length,
}
use teldrive_easy.Prelude.Int.{ℤ, pos, negsuc, ◌-ℤ◌, ltb_ℤ, sub_ℕ}
use teldrive_easy.Text.{Text, index, split, split_head, split_tail}

pub record Range : Type 0 where
  pub start : ℤ
  pub end : ℤ

-- A panic is the index of a part that is not there.
pub data Outcome : Type 0 where
  parsed : List Range → Outcome
  no_overlap invalid panicked : Outcome

-- '0', '9', '+', '-', ',', '='.
abbrev pub zero_char : ℕ
zero_char = 48

abbrev pub nine_char : ℕ
nine_char = 57

abbrev pub plus : ℕ
plus = 43

abbrev pub minus : ℕ
minus = 45

abbrev pub comma : ℕ
comma = 44

abbrev pub equals : ℕ
equals = 61

unfoldable pub digits : Text → ℕ → Option ℕ
digits [] n = some n
digits (c ∷ cs) n =
    let rest = digits cs (10 * n + (c - zero_char)) in
    if leb zero_char c && leb c nine_char then rest else none

-- Digits, one at least.
unfoldable pub unsigned : Text → Option ℕ
unsigned [] = none
unsigned (c ∷ cs) = digits (c ∷ cs) 0

-- The value in the range of an `int64`.
unfoldable pub positive : Option ℕ → Option ℤ
positive none = none
positive (some n) = if ltb n (2 ^ 63) then some (pos n) else none

unfoldable pub negative : Option ℕ → Option ℤ
negative none = none
negative (some n) = if leb n (2 ^ 63) then some (sub_ℕ 0 n) else none

-- `strconv.ParseInt(s, 10, 64)`; `none` is an error.
unfoldable pub parse_int : Text → Option ℤ
parse_int [] = none
parse_int (c ∷ cs) =
    if c == plus
    then positive (unsigned cs)
    else if c == minus
    then negative (unsigned cs)
    else positive (unsigned (c ∷ cs))

-- The range of one element, cut at the size, or nothing.
unfoldable pub clip : (size start end : ℤ) → Option Range
clip size start end =
    let last = if ltb_ℤ end size then end else size -ℤ pos 1 in
    if ltb_ℤ last start || ltb_ℤ start (pos 0)
    then none
    else some (record { start = start; end = last })

unfoldable pub one_range : (size : ℤ) → Option ℤ → Option ℤ → Option Range
one_range size none none = none
one_range size none (some end) = clip size (size -ℤ end) (size -ℤ pos 1)
one_range size (some start) none = clip size start (size -ℤ pos 1)
one_range size (some start) (some end) = clip size start end

unfoldable pub add_range : Option Range → List Range → List Range
add_range none rs = rs
add_range (some r) rs = r ∷ rs

-- The two parts of an element; the second is missing where it has no '-'.
unfoldable pub element : (size : ℤ) → Text → List Text → Option (Option Range)
element size first [] = none
element size first (second ∷ _) = some (one_range size (parse_int first) (parse_int second))

-- The loop over the elements; `none` is a panic.
unfoldable pub elements : (size : ℤ) → List Text → Option (List Range)
elements size [] = some []
elements size (value ∷ values) =
    let rest = elements size values in
    elim (element size (split_head minus value) (split_tail minus value)) [
      | none ↦ none
      | some r ↦ elim rest [ none ↦ none | some rs ↦ some (add_range r rs) ]
    ]

unfoldable pub outcome : Option (List Range) → Outcome
outcome none = panicked
outcome (some []) = no_overlap
outcome (some (r ∷ rs)) = parsed (r ∷ rs)

unfoldable pub parse : Text → ℤ → Outcome
parse header size = elim (index equals header) [
  | none ↦ invalid
  | some i ↦ outcome (elements size (split comma (drop (i + 1) header)))
]
