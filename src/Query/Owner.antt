-- ===== src/Query/Owner.antt =====
-- Whose files a query can list.
use mathlib.Core.Bool.{false≢true}
use mathlib.Core.Option.{none-ne-some}
use teldrive_easy.Prelude.{
  ℕ, ◌<◌, ◌≡◌, refl, sym, ap, ◌∙◌, subst, Bool, true, false, List, ◌∷◌, Option, none, some, ==_iff,
  ◌==◌, leb-true, arith, dec_lt,
}
use teldrive_easy.Query.Condition.{File, Database, Expr, eval, is_true, both, user_eq}
use teldrive_easy.Query.Cursor.{Error, no_user, Formats, CursorEncoder, Result, ok, err}
use teldrive_easy.Query.Builder.{
  Query, Statement, build, build_normal, statement, base_conditions, conjunction, validate,
}
use teldrive_easy.Query.NextPage.{normalize_limit}

first_of : (a b : Option Bool) → is_true (both a b) ≡ true → is_true a ≡ true
unfolding is_true both
first_of (some true) b h = refl
first_of (some false) b h = h
first_of none (some true) h = h
first_of none (some false) h = h
first_of none none h = h

own_file :
    (db : Database) (u : ℕ) (es : List Expr) (f : File)
    → is_true (eval db (conjunction (user_eq u ∷ es)) f) ≡ true
    → f.user_id ≡ u
unfolding conjunction eval is_true
own_file db u es f h =
    (==_iff f.user_id u).0
      (holds (f.user_id == u) (first_of (some (f.user_id == u)) (eval db (conjunction es) f) h))
  where
    holds : (b : Bool) → is_true (some b) ≡ true → b ≡ true
    holds true h = refl
    holds false h = absurd (false≢true h)

-- What a result says of its statement's condition.
abbrev condition_in : Result (Statement × CursorEncoder) → Expr
condition_in (ok (st, c)) = st.condition
condition_in (err e) = Expr.never

statement_own :
    (fmt : Formats) (db : Database) (q : Query) (es : Result (List Expr)) (st : Statement)
    (c : CursorEncoder) (f : File)
    → statement fmt q es ≡ ok (st, c)
    → is_true (eval db st.condition f) ≡ true
    → f.user_id ≡ q.user_id
unfolding statement base_conditions
statement_own fmt db q (err e) st c f h k = cc
statement_own fmt db q (ok es) st c f h k =
    own_file db q.user_id _ f
      (subst (λ e. is_true (eval db e f) ≡ true) (sym (ap condition_in h)) k)

checked :
    (o : Option Error) (r : Result (Statement × CursorEncoder)) (x : Statement × CursorEncoder)
    → elim o as (λ _. Result (Statement × CursorEncoder)) [ some e ↦ err e | none ↦ r ] ≡ ok x
    → (o ≡ none) × (r ≡ ok x)
checked none r x h = (refl, h)
checked (some e) r x h = cc

accepted_user : (q : Query) → validate q ≡ none → 0 < q.user_id
unfolding validate
accepted_user q h = elim (dec_lt 0 q.user_id) [
  | yes there ↦ there
  | no gone ↦
      absurd
        (none-ne-some no_user (sym h ∙ rw (leb-true {a = q.user_id} {b = 0} (omega arith)) refl))
]

build_normal_own :
    (fmt : Formats) (db : Database) (q : Query) (st : Statement) (c : CursorEncoder) (f : File)
    → build_normal fmt q ≡ ok (st, c)
    → is_true (eval db st.condition f) ≡ true
    → (0 < q.user_id) × (f.user_id ≡ q.user_id)
unfolding build_normal
build_normal_own fmt db q st c f h k =
    let (valid, made) = checked (validate q) _ (st, c) h in
    (accepted_user q valid, statement_own fmt db q _ st c f made k)

-- Every statement that is built, for a listing or a search, with a cursor or without, is one of a
-- real user, and its condition holds only for files of the user who asks.
pub build_own :
    (fmt : Formats) (db : Database) (q : Query) (st : Statement) (c : CursorEncoder) (f : File)
    → build fmt q ≡ ok (st, c)
    → is_true (eval db st.condition f) ≡ true
    → (0 < q.user_id) × (f.user_id ≡ q.user_id)
unfolding build
build_own fmt db q st c f h k =
    let (l, _, _, norm) = normalize_limit q in
    build_normal_own fmt db (record q { limit = l }) st c f (sym (ap (build_normal fmt) norm) ∙ h) k
