-- ===== src/Query/Condition.antt =====
-- The conditions that pkg/repositories/filesquery/builder.go puts together, and their value at a
-- row: SQL's three values, `none` for NULL.
use teldrive_easy.Prelude.{
  ℕ, Bool, true, false, ◌||◌, List, [], ◌∷◌, Option, none, some, ltb, leb, ◌==◌,
}
use teldrive_easy.Text.{Text, text_equal}

-- A row of the table of files, as far as the queries read it. Ids are uuids read as numbers, times
-- are microseconds.
pub record File : Type 0 where
  pub id : ℕ
  pub user_id : ℕ
  pub status : Text
  pub parent_id : Option ℕ
  pub name : Text
  pub kind : Text
  pub category : Text
  pub size : Option ℕ
  pub updated_at : ℕ

pub data SearchType : Type 0 where
  default text regex : SearchType

-- The comparisons of a column with a value.
pub data Op : Type 0 where
  eq gt lt gt_eq lt_eq : Op

pub data Expr : Type 0 where
  user_eq : ℕ → Expr
  status_eq : Text → Expr
  parent_eq : ℕ → Expr
  parent_null : Expr
  name_is : Op → Text → Expr
  type_eq : Text → Expr
  category_eq : Text → Expr
  shared_by : ℕ → Expr
  searched : SearchType → Text → Expr
  size_is : Op → ℕ → Expr
  id_is : Op → ℕ → Expr
  updated_is : Op → ℕ → Expr
  or_ and_ : Expr → Expr → Expr
  never always : Expr

-- What the database knows: the order of its collation, its text search, and who shared a file.
pub record Database : Type 0 where
  pub text_less : Text → Text → Bool
  pub matches : SearchType → Text → Text → Bool
  pub is_shared : ℕ → ℕ → Bool

unfoldable pub compares : Op → ℕ → ℕ → Bool
compares eq a b = a == b
compares gt a b = ltb b a
compares lt a b = ltb a b
compares gt_eq a b = leb b a
compares lt_eq a b = leb a b

unfoldable pub compares_text : Database → Op → Text → Text → Bool
compares_text db eq a b = text_equal a b
compares_text db gt a b = db.text_less b a
compares_text db lt a b = db.text_less a b
compares_text db gt_eq a b = text_equal a b || db.text_less b a
compares_text db lt_eq a b = text_equal a b || db.text_less a b

-- OR and AND of three values.
unfoldable pub either : Option Bool → Option Bool → Option Bool
either (some true) b = some true
either (some false) b = b
either none (some true) = some true
either none (some false) = none
either none none = none

unfoldable pub both : Option Bool → Option Bool → Option Bool
both (some true) b = b
both (some false) b = some false
both none (some true) = none
both none (some false) = some false
both none none = none

-- A test of a column that may be NULL.
unfoldable pub on_column : (ℕ → Bool) → Option ℕ → Option Bool
on_column test none = none
on_column test (some a) = some (test a)

unfoldable pub is_null : Option ℕ → Bool
is_null none = true
is_null (some _) = false

unfoldable pub eval : Database → Expr → File → Option Bool
eval db (user_eq u) f = some (f.user_id == u)
eval db (status_eq s) f = some (text_equal f.status s)
eval db (parent_eq p) f = on_column (λ a. a == p) f.parent_id
eval db parent_null f = some (is_null f.parent_id)
eval db (name_is op v) f = some (compares_text db op f.name v)
eval db (type_eq t) f = some (text_equal f.kind t)
eval db (category_eq c) f = some (text_equal f.category c)
eval db (shared_by u) f = some (db.is_shared u f.id)
eval db (searched t q) f = some (db.matches t q f.name)
eval db (size_is op v) f = on_column (λ a. compares op a v) f.size
eval db (id_is op v) f = some (compares op f.id v)
eval db (updated_is op v) f = some (compares op f.updated_at v)
eval db (or_ a b) f = either (eval db a f) (eval db b f)
eval db (and_ a b) f = both (eval db a f) (eval db b f)
eval db never f = some false
eval db always f = some true

-- WHERE keeps a row whose condition is true, not NULL.
unfoldable pub is_true : Option Bool → Bool
is_true (some true) = true
is_true (some false) = false
is_true none = false

unfoldable pub filter : (File → Bool) → List File → List File
filter test [] = []
filter test (f ∷ fs) = elim (test f) [ true ↦ f ∷ filter test fs | false ↦ filter test fs ]

abbrev pub select : Database → Expr → List File → List File
select db e = filter (λ f. is_true (eval db e f))
