-- ===== src/Query/Examples.antt =====
-- A listing of two files, page by page. Numbers are written as so many strokes.
use teldrive_easy.Prelude.{
  ℕ, zero, suc, ◌<◌, ◌≤◌, ◌≡◌, inl, inr, refl, ap, true, false, [], ◌∷◌, Option, none, some, length,
  replicate, length-replicate, arith, ltb,
}
use teldrive_easy.Text.{Text, Lacks, last_index}
use teldrive_easy.Query.Condition.{SearchType, File, Database, eval, is_true, filter, select, both}
use teldrive_easy.Query.Cursor.{
  Formats, SortField, name, asc, encode, decode, Result, ok, colon, is_asc, cursor_val, Error,
  printed_size, halves, condition_of,
}
use teldrive_easy.Query.Builder.{
  Query, Statement, build, conjunction, base_conditions, list_op, apply_sort, build_normal,
  validate, normalize, statement, cursor_conditions, recursive_tables, present,
  operation_conditions, list_conditions, parent_condition,
}
use teldrive_easy.Query.Order.{RoundTrips, Orders, decode-encode}
use teldrive_easy.Query.NextPage.{with_cursor, build-with_cursor}
use teldrive_easy.Query.Owner.{build_own}

abbrev strokes : ℕ → Text
strokes n = replicate (suc n) 124

count_strokes : Text → Option ℕ
count_strokes [] = none
count_strokes (_ ∷ xs) = some (length xs)

abbrev strokes_only : Formats
strokes_only = record {
  print_size = strokes;
  parse_size = count_strokes;
  print_id = strokes;
  parse_id = count_strokes;
  print_time = strokes;
  parse_time = count_strokes;
}

counted : (n : ℕ) → count_strokes (strokes n) ≡ some n
unfolding count_strokes
counted n = ap some (length-replicate n 124)

strokes-Lacks : (n : ℕ) → Lacks colon (replicate n 124)
unfolding last_index
strokes-Lacks zero = refl
strokes-Lacks (suc n) = rw (strokes-Lacks n) refl

abbrev strokes-RoundTrips : RoundTrips strokes_only
strokes-RoundTrips = record {
  sizes = counted;
  ids = counted;
  times = counted;
  no_colon = λ n. strokes-Lacks (suc n);
  some_id = λ n. omega arith;
}

-- Shorter names come first.
abbrev by_length : Database
by_length = record {
  text_less = λ a b. ltb (length a) (length b);
  matches = λ t q a. true;
  is_shared = λ u f. false;
}

by_length-Orders : Orders by_length
by_length-Orders = record { irreflexive = λ a. ground arith; asymmetric = λ a b h. ground arith }

abbrev file_named : ℕ → Text → File
file_named i n = record {
  id = i;
  user_id = 7;
  status = [];
  parent_id = none;
  name = n;
  kind = [];
  category = [];
  size = none;
  updated_at = 0;
}

abbrev first_file : File
first_file = file_named 1 (97 ∷ [])

abbrev second_file : File
second_file = file_named 2 (97 ∷ [])

abbrev listing : Query
listing = record {
  user_id = 7;
  operation = list_op;
  status = [];
  parent_id = none;
  parent_is_nil = false;
  path = [];
  name = [];
  kind = [];
  categories = [];
  search = record { query = []; search_type = SearchType.default; deep_search = false };
  updated_at = [];
  shared = false;
  sort = name;
  order = asc;
  cursor = [];
  limit = 0;
}

decode-encode_example :
    decode strokes_only
      (record { sort_field = name; order = asc })
      (encode strokes_only (record { sort_field = name; order = asc }) first_file)
    ≡ ok (some (record { cursor_value = 97 ∷ []; cursor_id = 1; field = name; ascending = true }))
unfolding cursor_val is_asc
decode-encode_example =
    decode-encode strokes_only strokes-RoundTrips (record { sort_field = name; order = asc })
      first_file (omega arith)

build-with_cursor_example :
    (st : Statement) × (build strokes_only (with_cursor strokes_only listing first_file)
      ≡ ok (st, record { sort_field = name; order = asc }))
    × (select by_length st.condition (first_file ∷ second_file ∷ []) ≡ second_file ∷ [])
    × (st.order_by ≡ apply_sort name asc)
    × (1 ≤ st.limit)
    × (st.limit ≤ 100)
unfolding eval is_true filter conjunction base_conditions apply_sort cursor_val both present
    operation_conditions list_conditions parent_condition is_asc
build-with_cursor_example =
    build-with_cursor strokes_only by_length listing (first_file ∷ second_file ∷ []) []
      (second_file ∷ []) first_file strokes-RoundTrips by_length-Orders (omega arith) refl
      ((inr (refl, inl refl), omega arith), (omega arith, omega arith))
      (omega arith, (omega arith, omega arith))

abbrev made : Statement
made = record {
  subdirs = none;
  condition = conjunction (base_conditions listing);
  order_by = apply_sort name asc;
  limit = 100;
}

build_own_example : (0 < 7) × (first_file.user_id ≡ 7)
unfolding build base_conditions conjunction eval is_true build_normal validate normalize statement
    cursor_conditions decode recursive_tables present operation_conditions list_conditions
    parent_condition both
build_own_example =
    build_own strokes_only by_length listing made (record { sort_field = name; order = asc })
      first_file refl refl

-- A folder has no size, and its cursor in a listing by size is refused.
sizeless_test :
    decode strokes_only
      (record { sort_field = SortField.size; order = asc })
      (encode strokes_only (record { sort_field = SortField.size; order = asc }) first_file)
    ≡ Result.err Error.invalid_format
unfolding decode encode cursor_val printed_size last_index halves condition_of
sizeless_test = refl
