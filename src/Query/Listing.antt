-- ===== src/Query/Listing.antt =====
-- What the condition of a cursor leaves of a sorted listing.
use mathlib.Core.Bool.{false≢true}
use teldrive_easy.Prelude.{
  ℕ, ◌≤◌, ◌≡◌, inl, inr, refl, sym, ap, ◌∙◌, subst, Bool, true, false, List, [], ◌∷◌, ◌++◌, Option,
  none, some, arith,
}
use teldrive_easy.Query.Condition.{File, Expr, Database, eval, is_true, select}
use teldrive_easy.Query.Cursor.{SortField, name, size, id, updated_at, SortOrder, Formats}
use teldrive_easy.Query.Builder.{apply_sort}
use teldrive_easy.Query.Order.{
  RoundTrips, Orders, HasKey, Precedes, key_before, key_less, size_less, KeySame,
}
use teldrive_easy.Query.Filter.{filter_keep, filter_drop, filter_nil, true_only}
use teldrive_easy.Query.Pages.{Behind}

-- Rows in the order of an ORDER BY.
abbrev pub AllBehind : Database → SortField → SortOrder → File → List File → Type 0
AllBehind db k order f [] = 0 ≤ 0
AllBehind db k order f (g ∷ gs) = Precedes db (apply_sort k order) f g × AllBehind db k order f gs

abbrev pub Sorted : Database → SortField → SortOrder → List File → Type 0
Sorted db k order [] = 0 ≤ 0
Sorted db k order (f ∷ fs) = AllBehind db k order f fs × Sorted db k order fs

abbrev pub AllKeyed : Formats → SortField → List File → Type 0
AllKeyed fmt k [] = 0 ≤ 0
AllKeyed fmt k (f ∷ fs) = HasKey fmt k f × AllKeyed fmt k fs

size_asym : (a b : Option ℕ) → size_less a b ≡ true → size_less b a ≡ false
size_asym none b h = absurd (false≢true h)
size_asym (some a) none h = refl
size_asym (some a) (some b) h = ground arith

module _ (db : Database) (laws : Orders db) where
  less_asym : (k : SortField) (f g : File) → key_less db k f g ≡ true → key_less db k g f ≡ false
  less_asym name f g h = laws.asymmetric f.name g.name h
  less_asym size f g h = size_asym f.size g.size h
  less_asym id f g h = ground arith
  less_asym updated_at f g h = ground arith

  size_irrefl : (a : Option ℕ) → size_less a a ≡ false
  size_irrefl none = refl
  size_irrefl (some a) = ground arith

  less_same : (k : SortField) (f g : File) → KeySame k f g → key_less db k f g ≡ false
  less_same name f g h = subst (λ a. db.text_less f.name a ≡ false) h (laws.irreflexive f.name)
  less_same size f g h = subst (λ a. size_less f.size a ≡ false) h (size_irrefl f.size)
  less_same id f g h = ground arith
  less_same updated_at f g h = ground arith

  same_sym : (k : SortField) (f g : File) → KeySame k f g → KeySame k g f
  same_sym name f g h = sym h
  same_sym size f g h = sym h
  same_sym id f g h = sym h
  same_sym updated_at f g h = sym h

  before_asym :
      (k : SortField) (up : Bool) (f g : File)
      → key_before db k up f g ≡ true
      → key_before db k up g f ≡ false
  before_asym k true f g h = less_asym k f g h
  before_asym k false f g h = less_asym k g f h

  before_same :
      (k : SortField) (up : Bool) (f g : File) → KeySame k f g → key_before db k up f g ≡ false
  before_same k true f g h = less_same k f g h
  before_same k false f g h = less_same k g f (same_sym k f g h)

  -- An ORDER BY never puts two rows before each other.
  Precedes-asym :
      (ks : List (SortField × Bool)) (f g : File) → Precedes db ks f g → Precedes db ks g f → ⊥
  Precedes-asym [] f g h h' = h
  Precedes-asym ((k, up) ∷ ks) f g (inl h) (inl h') = false≢true (sym (before_asym k up f g h) ∙ h')
  Precedes-asym ((k, up) ∷ ks) f g (inl h) (inr (s, _)) =
      false≢true (sym (before_same k up f g (same_sym k g f s)) ∙ h)
  Precedes-asym ((k, up) ∷ ks) f g (inr (s, _)) (inl h') =
      false≢true (sym (before_same k up g f (same_sym k f g s)) ∙ h')
  Precedes-asym ((k, up) ∷ ks) f g (inr (_, h)) (inr (_, h')) = Precedes-asym ks f g h h'

  Precedes-irrefl : (ks : List (SortField × Bool)) (f : File) → Precedes db ks f f → ⊥
  Precedes-irrefl ks f h = Precedes-asym ks f f h h

-- The condition of a cursor cuts a sorted listing behind the row of the cursor.
module _ (fmt : Formats) (laws : RoundTrips fmt) (db : Database) (orders : Orders db)
    (k : SortField) (order : SortOrder) (f : File) (e : Expr)
    (behind : Behind fmt laws db order f k e) where
  refused :
      (g : File)
      → HasKey fmt k g
      → (Precedes db (apply_sort k order) f g → ⊥)
      → is_true (eval db e g) ≡ false
  refused g h not_behind = true_only (eval db e g) (λ t. not_behind ((behind g h).0 t))

  kept : (gs : List File) → AllKeyed fmt k gs → AllBehind db k order f gs → select db e gs ≡ gs
  unfolding is_true
  kept [] h b = filter_nil (λ g. is_true (eval db e g))
  kept (g ∷ gs) (h, hs) (b, bs) =
      filter_keep (λ g. is_true (eval db e g)) g gs (ap is_true ((behind g h).1 b))
      ∙ ap (◌∷◌ g) (kept gs hs bs)

  ahead :
      (g : File) (xs ys : List File)
      → AllBehind db k order g (xs ++ f ∷ ys)
      → Precedes db (apply_sort k order) g f
  ahead g [] ys (b, bs) = b
  ahead g (x ∷ xs) ys (b, bs) = ahead g xs ys bs

  pub cut :
      (xs ys : List File)
      → AllKeyed fmt k (xs ++ f ∷ ys)
      → Sorted db k order (xs ++ f ∷ ys)
      → select db e (xs ++ f ∷ ys) ≡ ys
  cut [] ys (h, hs) (b, bs) =
      filter_drop (λ g. is_true (eval db e g)) f ys
        (refused f h (Precedes-irrefl db orders (apply_sort k order) f))
      ∙ kept ys hs b
  cut (x ∷ xs) ys (h, hs) (b, bs) =
      filter_drop (λ g. is_true (eval db e g)) x (xs ++ f ∷ ys)
        (refused x h (λ t. Precedes-asym db orders (apply_sort k order) f x t (ahead x xs ys b)))
      ∙ cut xs ys hs bs
