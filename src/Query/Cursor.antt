-- ===== src/Query/Cursor.antt =====
-- `CursorEncoder` and `CursorCondition` of pkg/repositories/filesquery/builder.go: where a page ends,
-- and the condition that the next one starts behind it.
use teldrive_easy.Prelude.{
  ℕ, ◌+◌, ◌-◌, Bool, true, false, ◌||◌, [], ◌∷◌, ◌++◌, Option, none, some, leb, if◌then◌else◌,
  length, take, drop,
}
use teldrive_easy.Text.{Text, last_index}
use teldrive_easy.Query.Condition.{
  File, Expr, or_, and_, name_is, size_is, id_is, updated_is, eq, gt, lt,
}

pub data Error : Type 0 where
  no_user invalid_format invalid_id invalid_size invalid_time : Error

pub data Result {ℓ} (A : Type ℓ) : Type ℓ where
  ok : A → Result A
  err : Error → Result A

-- Any other string sorts by the time of the last change.
pub data SortField : Type 0 where
  name size id updated_at : SortField

pub data SortOrder : Type 0 where
  asc desc : SortOrder

-- How values are written and read: `strconv` for sizes, `uuid` for ids, RFC 3339 for times.
pub record Formats : Type 0 where
  pub print_size : ℕ → Text
  pub parse_size : Text → Option ℕ
  pub print_id : ℕ → Text
  pub parse_id : Text → Option ℕ
  pub print_time : ℕ → Text
  pub parse_time : Text → Option ℕ

pub record CursorEncoder : Type 0 where
  pub sort_field : SortField
  pub order : SortOrder

pub record CursorCondition : Type 0 where
  pub cursor_value : Text
  pub cursor_id : ℕ
  pub field : SortField
  pub ascending : Bool

-- ':'.
abbrev pub colon : ℕ
colon = 58

unfoldable pub is_asc : SortOrder → Bool
is_asc asc = true
is_asc desc = false

module _ (fmt : Formats) where
  unfoldable pub printed_size : Option ℕ → Text
  printed_size none = []
  printed_size (some s) = fmt.print_size s

  unfoldable pub cursor_val : SortField → File → Text
  cursor_val name f = f.name
  cursor_val size f = printed_size f.size
  cursor_val id f = fmt.print_id f.id
  cursor_val updated_at f = fmt.print_time f.updated_at

  unfoldable pub encode : CursorEncoder → File → Text
  encode c f = cursor_val c.sort_field f ++ colon ∷ fmt.print_id f.id

  -- The two halves around the last colon; it may stand neither first nor last.
  unfoldable pub halves : Option ℕ → Text → Option (Text × Text)
  halves none cursor = none
  halves (some at) cursor =
      if leb at 0 || leb (length cursor - 1) at
      then none
      else some (take at cursor, drop (at + 1) cursor)

  unfoldable pub condition_of :
      CursorEncoder → Option (Text × Text) → Result (Option CursorCondition)
  condition_of c none = err invalid_format
  condition_of c (some (value, id_text)) = elim (fmt.parse_id id_text) [
    | none ↦ err invalid_id
    | some cursor_id ↦ ok (
        some (record {
          cursor_value = value;
          cursor_id = cursor_id;
          field = c.sort_field;
          ascending = is_asc c.order;
        }))
  ]

  -- No cursor is the first page.
  unfoldable pub decode : CursorEncoder → Text → Result (Option CursorCondition)
  decode c [] = ok none
  decode c (x ∷ xs) = condition_of c (halves (last_index colon (x ∷ xs)) (x ∷ xs))

  -- Behind a value of the sort field, or at it and behind the id.
  unfoldable pub keyset_name : Bool → Text → ℕ → Expr
  keyset_name true v i = or_ (name_is gt v) (and_ (name_is eq v) (id_is gt i))
  keyset_name false v i = or_ (name_is lt v) (and_ (name_is eq v) (id_is lt i))

  unfoldable pub keyset_size : Bool → ℕ → ℕ → Expr
  keyset_size true v i = or_ (size_is gt v) (and_ (size_is eq v) (id_is gt i))
  keyset_size false v i = or_ (size_is lt v) (and_ (size_is eq v) (id_is lt i))

  unfoldable pub keyset_id : Bool → ℕ → Expr
  keyset_id true i = id_is gt i
  keyset_id false i = id_is lt i

  unfoldable pub keyset_time : Bool → ℕ → ℕ → Expr
  keyset_time true v i = or_ (updated_is gt v) (and_ (updated_is eq v) (id_is gt i))
  keyset_time false v i = or_ (updated_is lt v) (and_ (updated_is eq v) (id_is lt i))

  unfoldable pub build_for : SortField → CursorCondition → Result Expr
  build_for name cc = ok (keyset_name cc.ascending cc.cursor_value cc.cursor_id)
  build_for size cc = elim (fmt.parse_size cc.cursor_value) [
    | none ↦ err invalid_size
    | some v ↦ ok (keyset_size cc.ascending v cc.cursor_id)
  ]
  build_for id cc = ok (keyset_id cc.ascending cc.cursor_id)
  build_for updated_at cc = elim (fmt.parse_time cc.cursor_value) [
    | none ↦ err invalid_time
    | some v ↦ ok (keyset_time cc.ascending v cc.cursor_id)
  ]

  abbrev pub build_condition : CursorCondition → Result Expr
  build_condition cc = build_for cc.field cc
