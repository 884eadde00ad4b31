-- ===== src/Query/Filter.antt =====
-- WHERE with one more condition at the end.

use teldrive_easy.Prelude.{
  ◌≡◌, inl, inr, refl, sym, ap, ◌∙◌, Bool, true, false, ◌&&◌, List, [], ◌∷◌, ◌++◌, Option, none,
  some, Bool-cases,
}
use teldrive_easy.Query.Condition.{File, Expr, Database, eval, both, is_true, filter, select}
use teldrive_easy.Query.Builder.{conjunction}

-- Filters, row by row.
pub filter_keep :
    (test : File → Bool) (f : File) (fs : List File)
    → test f ≡ true
    → filter test (f ∷ fs) ≡ f ∷ filter test fs
unfolding filter
filter_keep test f fs h = rw (h, filter) refl

pub filter_drop :
    (test : File → Bool) (f : File) (fs : List File)
    → test f ≡ false
    → filter test (f ∷ fs) ≡ filter test fs
unfolding filter
filter_drop test f fs h = rw (h, filter) refl

pub true_only : (o : Option Bool) → (o ≡ some true → ⊥) → is_true o ≡ false
unfolding is_true
true_only none h = refl
true_only (some true) h = absurd (h refl)
true_only (some false) h = refl

is_true-both : (a b : Option Bool) → is_true (both a b) ≡ is_true a && is_true b
unfolding is_true both
is_true-both (some true) b = refl
is_true-both (some false) b = refl
is_true-both none (some true) = refl
is_true-both none (some false) = refl
is_true-both none none = refl

pub filter_nil : (test : File → Bool) → filter test [] ≡ []
unfolding filter
filter_nil test = refl

-- A further condition filters what the others let through.
filter-and :
    (p q : File → Bool) (fs : List File) → filter (λ f. p f && q f) fs ≡ filter q (filter p fs)
filter-and p q [] =
    filter_nil (λ f. p f && q f) ∙ sym (filter_nil q) ∙ ap (filter q) (sym (filter_nil p))
filter-and p q (f ∷ fs) = elim (Bool-cases (p f)) [
  | inl e ↦ elim (Bool-cases (q f)) [
    | inl e' ↦
        filter_keep (λ f. p f && q f) f fs (rw (e, e') refl)
        ∙ ap (◌∷◌ f) (filter-and p q fs)
        ∙ sym (ap (filter q) (filter_keep p f fs e) ∙ filter_keep q f (filter p fs) e')
    | inr e' ↦
        filter_drop (λ f. p f && q f) f fs (rw (e, e') refl)
        ∙ filter-and p q fs
        ∙ sym (ap (filter q) (filter_keep p f fs e) ∙ filter_drop q f (filter p fs) e')
  ]
  | inr e ↦
      filter_drop (λ f. p f && q f) f fs (rw e refl)
      ∙ filter-and p q fs
      ∙ ap (filter q) (sym (filter_drop p f fs e))
]

filter_same :
    (p q : File → Bool) (fs : List File) → ((f : File) → p f ≡ q f) → filter p fs ≡ filter q fs
filter_same p q [] h = filter_nil p ∙ sym (filter_nil q)
filter_same p q (f ∷ fs) h = elim (Bool-cases (q f)) [
  | inl e ↦
      filter_keep p f fs (h f ∙ e) ∙ ap (◌∷◌ f) (filter_same p q fs h) ∙ sym (filter_keep q f fs e)
  | inr e ↦ filter_drop p f fs (h f ∙ e) ∙ filter_same p q fs h ∙ sym (filter_drop q f fs e)
]

and_assoc : (a b c : Bool) → a && (b && c) ≡ (a && b) && c
and_assoc true b c = refl
and_assoc false b c = refl

and_true : (a : Bool) → a && true ≡ true && a
and_true true = refl
and_true false = refl

-- The last of several conditions.
is_true-conjunction :
    (db : Database) (es : List Expr) (e : Expr) (f : File)
    → is_true (eval db (conjunction (es ++ e ∷ [])) f)
      ≡ is_true (eval db (conjunction es) f) && is_true (eval db e f)
unfolding conjunction eval is_true
is_true-conjunction db [] e f =
    is_true-both (eval db e f) (some true) ∙ and_true (is_true (eval db e f))
is_true-conjunction db (d ∷ es) e f =
    is_true-both (eval db d f) (eval db (conjunction (es ++ e ∷ [])) f)
    ∙ ap (◌&&◌ (is_true (eval db d f))) (is_true-conjunction db es e f)
    ∙ and_assoc (is_true (eval db d f)) _ _
    ∙ ap (λ b. b && is_true (eval db e f))
        (sym (is_true-both (eval db d f) (eval db (conjunction es) f)))

pub select-conjunction :
    (db : Database) (es : List Expr) (e : Expr) (table : List File)
    → select db (conjunction (es ++ e ∷ [])) table ≡ select db e (select db (conjunction es) table)
select-conjunction db es e table =
    filter_same (λ f. is_true (eval db (conjunction (es ++ e ∷ [])) f))
      (λ f. is_true (eval db (conjunction es) f) && is_true (eval db e f)) table
      (is_true-conjunction db es e)
    ∙ filter-and (λ f. is_true (eval db (conjunction es) f)) (λ f. is_true (eval db e f)) table
