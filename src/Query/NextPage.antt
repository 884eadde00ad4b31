-- ===== src/Query/NextPage.antt =====
-- A listing that goes on at a cursor, as `Build` makes the statement for it.

use teldrive_easy.Prelude.{
  ℕ, ◌<◌, ◌≤◌, ◌≡◌, refl, ap, ◌∙◌, List, [], ◌∷◌, ◌++◌, none, arith, ltb-true, ltb-false, leb-true,
  leb-false, dec_lt,
}
use teldrive_easy.Text.{Text}
use teldrive_easy.Query.Condition.{File, Expr, Database, select, user_eq, status_eq}
use teldrive_easy.Query.Cursor.{Formats, encode, decode, ok}
use teldrive_easy.Query.Builder.{
  Query, Statement, apply_sort, cursor_conditions, build, build_normal, statement, conjunction,
  base_conditions, normalize, validate, Operation, list_op, find_op, other_op, operation_conditions,
  list_conditions, find_conditions, present,
}
use teldrive_easy.Query.Order.{RoundTrips, Orders, HasKey}
use teldrive_easy.Query.Filter.{select-conjunction}
use teldrive_easy.Query.Listing.{Sorted, AllKeyed, cut}
use teldrive_easy.Query.Pages.{cursor_conditions-encode}

-- The query for the page behind `f`.
abbrev pub with_cursor : Formats → Query → File → Query
with_cursor fmt q f = record q {
  cursor = encode fmt (record { sort_field = q.sort; order = q.order }) f;
}

pub normalize_limit :
    (q : Query) → (l : ℕ) × (1 ≤ l) × (l ≤ 100) × (normalize q ≡ record q { limit = l })
unfolding normalize
normalize_limit q = elim (dec_lt 0 q.limit) [
  | no zero_limit ↦
      (100, omega arith, omega arith, rw (leb-true {a = q.limit} {b = 0} (omega arith)) refl)
  | yes some_limit ↦ elim (dec_lt 100 q.limit) [
    | yes over ↦ (
      100,
      omega arith,
      omega arith,
      rw (leb-false {a = q.limit} {b = 0} some_limit, ltb-true over) refl,
    )
    | no within ↦ (
      q.limit,
      some_limit,
      omega arith,
      rw
          (
            leb-false {a = q.limit} {b = 0} some_limit,
            ltb-false {a = 100} {b = q.limit} (omega arith),
          )
          refl,
    )
  ]
]

operation_same :
    (op : Operation) (q : Query) (cur : Text) (l : ℕ)
    → operation_conditions op (record q { cursor = cur; limit = l }) ≡ operation_conditions op q
unfolding operation_conditions list_conditions find_conditions
operation_same list_op q cur l = refl
operation_same find_op q cur l = refl
operation_same other_op q cur l = refl

base_same :
    (q : Query) (cur : Text) (l : ℕ)
    → base_conditions (record q { cursor = cur; limit = l }) ≡ base_conditions q
unfolding base_conditions
base_same q cur l =
    ap (λ es. user_eq q.user_id ∷ (present q.status (status_eq q.status) ++ es))
      (operation_same q.operation q cur l)

validate_ok : (q : Query) → 0 < q.user_id → validate q ≡ none
unfolding validate
validate_ok q h = rw (leb-false {a = q.user_id} {b = 0} h) refl

build_checked :
    (fmt : Formats) (q : Query) (es : List Expr)
    → 0 < q.user_id
    → cursor_conditions fmt (decode fmt (record { sort_field = q.sort; order = q.order }) q.cursor)
      ≡ ok es
    → build_normal fmt q ≡ statement fmt q (ok es)
unfolding build_normal
build_checked fmt q es h e = rw (validate_ok q h, build_normal) (ap (statement fmt q) e)

-- The rest of a listing. Let values be read back as they were written, and let the collation be an
-- order. Let the rows that a query of a real user asks for be sorted as it orders
-- them, each with a value in the sort field. Built again with the cursor of one of them, the query
-- is accepted, asks for the same order and a limit from 1 to 100, and its condition selects exactly
-- the rows behind that one: no row comes twice and none is skipped.
pub build-with_cursor :
    (fmt : Formats) (db : Database) (q : Query) (table xs ys : List File) (f : File)
    → RoundTrips fmt
    → Orders db
    → 0 < q.user_id
    → select db (conjunction (base_conditions q)) table ≡ xs ++ f ∷ ys
    → Sorted db q.sort q.order (xs ++ f ∷ ys)
    → AllKeyed fmt q.sort (xs ++ f ∷ ys)
    → (st : Statement) × (build fmt (with_cursor fmt q f)
        ≡ ok (st, record { sort_field = q.sort; order = q.order }))
      × (select db st.condition table ≡ ys)
      × (st.order_by ≡ apply_sort q.sort q.order)
      × (1 ≤ st.limit)
      × (st.limit ≤ 100)
unfolding build statement
build-with_cursor fmt db q table xs ys f laws orders user rows sorted keyed =
    let (e, conds, behind) =
      cursor_conditions-encode fmt laws db q.order f q.sort (keyed_at xs ys keyed) in
    let (l, one, hundred, norm) = normalize_limit (with_cursor fmt q f) in
    (
      _,
      ap (build_normal fmt) norm
          ∙ build_checked fmt (record (with_cursor fmt q f) { limit = l }) (e ∷ []) user conds,
      ap (λ es. select db (conjunction (es ++ e ∷ [])) table)
            (base_same q (with_cursor fmt q f).cursor l)
          ∙ select-conjunction db (base_conditions q) e table
          ∙ ap (select db e) rows
          ∙ cut fmt laws db orders q.sort q.order f e behind xs ys keyed sorted,
      refl,
      one,
      hundred,
    )
  where
    keyed_at : (xs ys : List File) → AllKeyed fmt q.sort (xs ++ f ∷ ys) → HasKey fmt q.sort f
    keyed_at [] ys (h, hs) = h
    keyed_at (x ∷ xs) ys (h, hs) = keyed_at xs ys hs
