-- ===== src/Query/Builder.antt =====
-- `Builder` of pkg/repositories/filesquery/builder.go: a query becomes one statement.
use teldrive_easy.Prelude.{
  ℕ, Bool, true, false, ◌||◌, List, [], ◌∷◌, ◌++◌, Option, none, some, leb, ltb, if◌then◌else◌, map,
}
use teldrive_easy.Text.{Text, text_equal}
use teldrive_easy.Query.Condition.{
  Expr, SearchType, user_eq, status_eq, parent_eq, parent_null, name_is, type_eq, category_eq,
  shared_by, searched, updated_is, or_, and_, always, never, eq, gt, lt, gt_eq, lt_eq,
}
use teldrive_easy.Query.Cursor.{
  Error, no_user, Result, ok, err, SortField, name, size, id, updated_at, SortOrder, is_asc,
  Formats, CursorEncoder, CursorCondition, decode, build_condition,
}

-- Any other operation adds no condition of its own.
pub data Operation : Type 0 where
  list_op find_op other_op : Operation

-- Any other operator is an equality.
pub data DateOp : Type 0 where
  gte lte greater less equal : DateOp

pub record DateFilter : Type 0 where
  pub op : DateOp
  pub value : ℕ

pub record SearchParams : Type 0 where
  pub query : Text
  pub search_type : SearchType
  pub deep_search : Bool

pub record Query : Type 0 where
  pub user_id : ℕ
  pub operation : Operation
  pub status : Text
  pub parent_id : Option ℕ
  pub parent_is_nil : Bool
  pub path : Text
  pub name : Text
  pub kind : Text
  pub categories : List Text
  pub search : SearchParams
  pub updated_at : List DateFilter
  pub shared : Bool
  pub sort : SortField
  pub order : SortOrder
  pub cursor : Text
  pub limit : ℕ

-- `subdirs` is the folder that the recursive table of subfolders starts from. The listing itself
-- does not read that table.
pub record Statement : Type 0 where
  pub subdirs : Option ℕ
  pub condition : Expr
  pub order_by : List (SortField × Bool)
  pub limit : ℕ

unfoldable pub normalize : Query → Query
normalize q = if leb q.limit 0 || ltb 100 q.limit then record q { limit = 100 } else q

unfoldable pub validate : Query → Option Error
validate q = if leb q.user_id 0 then some no_user else none

unfoldable pub present : Text → Expr → List Expr
present [] e = []
present (_ ∷ _) e = e ∷ []

unfoldable pub parent_condition : Option ℕ → List Expr
parent_condition none = []
parent_condition (some p) = parent_eq p ∷ []

unfoldable pub date_condition : DateFilter → Expr
date_condition f = elim f.op [
  | gte ↦ updated_is gt_eq f.value
  | lte ↦ updated_is lt_eq f.value
  | greater ↦ updated_is gt f.value
  | less ↦ updated_is lt f.value
  | equal ↦ updated_is eq f.value
]

unfoldable pub search_condition : SearchParams → Expr
search_condition s = searched s.search_type s.query

-- "folder".
abbrev pub folder : Text
folder = 102 ∷ 111 ∷ 108 ∷ 100 ∷ 101 ∷ 114 ∷ []

unfoldable pub category_part : Text → Expr
category_part c = if text_equal c folder then type_eq c else category_eq c

-- OR of the parts; there is one at least where it is called.
unfoldable pub category_condition : List Text → Expr
category_condition [] = never
category_condition (c ∷ cs) = or_ (category_part c) (category_condition cs)

unfoldable pub category_conditions : List Text → List Expr
category_conditions [] = []
category_conditions (c ∷ cs) = category_condition (c ∷ cs) ∷ []

unfoldable pub list_conditions : Query → List Expr
list_conditions q = parent_condition q.parent_id

unfoldable pub find_conditions : Query → List Expr
find_conditions q =
    map date_condition q.updated_at
    ++ (present q.search.query (search_condition q.search)
        ++ (category_conditions q.categories
            ++ (present q.name (name_is eq q.name)
                ++ ((if q.parent_is_nil then parent_null ∷ [] else parent_condition q.parent_id)
                    ++ (present q.kind (type_eq q.kind)
                        ++ (if q.shared then shared_by q.user_id ∷ [] else []))))))

unfoldable pub operation_conditions : Operation → Query → List Expr
operation_conditions list_op q = list_conditions q
operation_conditions find_op q = find_conditions q
operation_conditions other_op q = []

unfoldable pub base_conditions : Query → List Expr
base_conditions q =
    user_eq q.user_id
    ∷ (present q.status (status_eq q.status) ++ operation_conditions q.operation q)

-- AND of all conditions.
unfoldable pub conjunction : List Expr → Expr
conjunction [] = always
conjunction (e ∷ es) = and_ e (conjunction es)

unfoldable pub is_empty : Text → Bool
is_empty [] = true
is_empty (_ ∷ _) = false

unfoldable pub recursive_tables : Query → Option ℕ
recursive_tables q =
    if elim q.search.deep_search [
      | true ↦ is_empty q.search.query || is_empty q.path
      | false ↦ true
    ]
    then none
    else q.parent_id

unfoldable pub apply_sort : SortField → SortOrder → List (SortField × Bool)
apply_sort name order = (name, is_asc order) ∷ (id, is_asc order) ∷ []
apply_sort size order = (size, is_asc order) ∷ (id, is_asc order) ∷ []
apply_sort id order = (id, is_asc order) ∷ []
apply_sort updated_at order = (updated_at, is_asc order) ∷ (id, is_asc order) ∷ []

module _ (fmt : Formats) where
  -- The condition of the cursor, if there is one.
  unfoldable pub cursor_conditions : Result (Option CursorCondition) → Result (List Expr)
  cursor_conditions (err e) = err e
  cursor_conditions (ok none) = ok []
  cursor_conditions (ok (some cc)) = elim (build_condition fmt cc) [
    | err e ↦ err e
    | ok e ↦ ok (e ∷ [])
  ]

  unfoldable pub statement : Query → Result (List Expr) → Result (Statement × CursorEncoder)
  statement q (err e) = err e
  statement q (ok es) = ok (
    record {
      subdirs = recursive_tables q;
      condition = conjunction (base_conditions q ++ es);
      order_by = apply_sort q.sort q.order;
      limit = q.limit;
    },
    record { sort_field = q.sort; order = q.order },
  )

  unfoldable pub build_normal : Query → Result (Statement × CursorEncoder)
  build_normal q = elim (validate q) [
    | some e ↦ err e
    | none ↦
        statement q (
          cursor_conditions (decode fmt (record { sort_field = q.sort; order = q.order }) q.cursor))
  ]

  unfoldable pub build : Query → Result (Statement × CursorEncoder)
  build q = build_normal (normalize q)
