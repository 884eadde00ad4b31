-- ===== src/Query/Pages.antt =====
-- Keyset pagination: the condition of a cursor selects the rows behind the one it was made from.
use mathlib.Core.Option.{some-injective}
use mathlib.Core.Bool.{false≢true}
use teldrive_easy.Prelude.{
  ℕ, ◌≡◌, ◌↔◌, ◌⊎◌, inl, inr, refl, sym, ap, ◌∙◌, subst, Bool, true, false, [], ◌∷◌, some, arith,
  ◌==◌, length, Option-cases,
}
use teldrive_easy.Text.{Text, text_equal, text_equal_self, text_equal_sound}
use teldrive_easy.Query.Condition.{
  File, Expr, Database, eval, either, both, compares, compares_text, on_column,
}
use teldrive_easy.Query.Cursor.{
  SortField, name, size, id, updated_at, SortOrder, asc, desc, is_asc, Formats, CursorEncoder,
  CursorCondition, encode, decode, build_condition, build_for, cursor_val, printed_size, ok,
  keyset_name, keyset_size, keyset_id, keyset_time,
}
use teldrive_easy.Query.Builder.{apply_sort, cursor_conditions}
use teldrive_easy.Query.Order.{RoundTrips, HasKey, Precedes, decode-encode}

-- A lexicographic condition on two columns that are not NULL.
lex :
    (l e i : Bool) {Q R : Type 0}
    → ((e ≡ true) ↔ Q)
    → (either (some l) (both (some e) (some i)) ≡ some true)
      ↔ ((l ≡ true) ⊎ (Q × ((i ≡ true) ⊎ (R × ⊥))))
unfolding either both
lex true e i q = (λ h. inl refl, λ h. refl)
lex false true true q = (λ h. inr (q.0 refl, inl refl), λ h. refl)
lex false true false {Q} {R} q = (λ h. absurd (false≢true (some-injective false true h)), no_id)
  where
    no_id : (false ≡ true) ⊎ (Q × ((false ≡ true) ⊎ (R × ⊥))) → some false ≡ some true
    no_id (inl h) = absurd (false≢true h)
    no_id (inr (_, inl h)) = absurd (false≢true h)
    no_id (inr (_, inr (_, h))) = absurd h
lex false false i {Q} {R} q = (λ h. absurd (false≢true (some-injective false true h)), no_key)
  where
    no_key : (false ≡ true) ⊎ (Q × ((i ≡ true) ⊎ (R × ⊥))) → some false ≡ some true
    no_key (inl h) = absurd (false≢true h)
    no_key (inr (h, _)) = absurd (false≢true (q.1 h))

single : (i : Bool) {R : Type 0} → (some i ≡ some true) ↔ ((i ≡ true) ⊎ (R × ⊥))
single i {R} = (λ h. inl (some-injective i true h), back)
  where
    back : (i ≡ true) ⊎ (R × ⊥) → some i ≡ some true
    back (inl h) = ap some h
    back (inr (_, h)) = absurd h

same_text : (a b : Text) → (text_equal a b ≡ true) ↔ (b ≡ a)
same_text a b = (
  λ h. sym (text_equal_sound a b h),
  λ h. subst (λ c. text_equal a c ≡ true) (sym h) (text_equal_self a),
)

same_number : (a b : ℕ) → ((a == b) ≡ true) ↔ (b ≡ a)
same_number a b = ground arith

same_size : (a b : ℕ) → ((a == b) ≡ true) ↔ (some b ≡ some a)
same_size a b =
    (λ h. ap some ((same_number a b).0 h), λ h. (same_number a b).1 (some-injective b a h))

module _ (db : Database) (f g : File) where
  name_iff :
      (order : SortOrder) (fmt : Formats)
      → (eval db (keyset_name fmt (is_asc order) f.name f.id) g ≡ some true)
        ↔ Precedes db (apply_sort name order) f g
  unfolding keyset_name is_asc apply_sort eval compares compares_text
  name_iff asc fmt = lex _ _ _ (same_text g.name f.name)
  name_iff desc fmt = lex _ _ _ (same_text g.name f.name)

  time_iff :
      (order : SortOrder) (fmt : Formats)
      → (eval db (keyset_time fmt (is_asc order) f.updated_at f.id) g ≡ some true)
        ↔ Precedes db (apply_sort updated_at order) f g
  unfolding keyset_time is_asc apply_sort eval compares
  time_iff asc fmt = lex _ _ _ (same_number g.updated_at f.updated_at)
  time_iff desc fmt = lex _ _ _ (same_number g.updated_at f.updated_at)

  id_iff :
      (order : SortOrder) (fmt : Formats)
      → (eval db (keyset_id fmt (is_asc order) f.id) g ≡ some true)
        ↔ Precedes db (apply_sort id order) f g
  unfolding keyset_id is_asc apply_sort eval compares
  id_iff asc fmt = single _
  id_iff desc fmt = single _

  size_iff :
      (order : SortOrder) (fmt : Formats) (a b : ℕ)
      → f.size ≡ some a
      → g.size ≡ some b
      → (eval db (keyset_size fmt (is_asc order) a f.id) g ≡ some true)
        ↔ Precedes db (apply_sort size order) f g
  unfolding keyset_size is_asc apply_sort eval compares on_column
  size_iff asc fmt a b e e' = rw (e, e') (lex _ _ _ (same_size b a))
  size_iff desc fmt a b e e' = rw (e, e') (lex _ _ _ (same_size b a))

sized : (fmt : Formats) (f : File) → HasKey fmt size f → (a : ℕ) × (f.size ≡ some a)
unfolding cursor_val printed_size
sized fmt f h = elim (Option-cases f.size) [
  | inl e ↦ absurd (omega (arith, ap (λ o. length (printed_size fmt o)) e))
  | inr (a, e) ↦ (a, e)
]

module _ (fmt : Formats) (laws : RoundTrips fmt) (db : Database) (order : SortOrder)
    (f : File) where
  abbrev cursor_of : SortField → CursorCondition
  cursor_of k = record {
    cursor_value = cursor_val fmt k f;
    cursor_id = f.id;
    field = k;
    ascending = is_asc order;
  }

  abbrev pub encoder : SortField → CursorEncoder
  encoder k = record { sort_field = k; order = order }

  -- A condition for the rows that an ORDER BY puts behind `f`.
  abbrev pub Behind : SortField → Expr → Type 0
  Behind k e =
      (g : File) → HasKey fmt k g → (eval db e g ≡ some true) ↔ Precedes db (apply_sort k order) f g

  build-Behind :
      (k : SortField)
      → HasKey fmt k f
      → (e : Expr) × (build_condition fmt (cursor_of k) ≡ ok e) × Behind k e
  unfolding build_for cursor_val printed_size
  build-Behind name h = (_, refl, λ g h'. name_iff db f g order fmt)
  build-Behind size h =
      let (a, e) = sized fmt f h in
      (
        keyset_size fmt (is_asc order) a f.id,
        rw (e, laws.sizes a) refl,
        λ g h'. let (b, e') = sized fmt g h' in size_iff db f g order fmt a b e e',
      )
  build-Behind id h = (_, refl, λ g h'. id_iff db f g order fmt)
  build-Behind updated_at h = (
    keyset_time fmt (is_asc order) f.updated_at f.id,
    rw (laws.times f.updated_at) refl,
    λ g h'. time_iff db f g order fmt,
  )

  conditions_one :
      (cc : CursorCondition) (e : Expr)
      → build_condition fmt cc ≡ ok e
      → cursor_conditions fmt (ok (some cc)) ≡ ok (e ∷ [])
  unfolding cursor_conditions
  conditions_one cc e h = rw (h, cursor_conditions) refl

  -- The cursor of a row, sent back, adds one condition: the rows behind that row.
  pub cursor_conditions-encode :
      (k : SortField)
      → HasKey fmt k f
      → (e : Expr) × (cursor_conditions fmt (decode fmt (encoder k) (encode fmt (encoder k) f))
          ≡ ok (e ∷ []))
        × Behind k e
  unfolding cursor_conditions
  cursor_conditions-encode k h =
      let (e, built, behind) = build-Behind k h in
      (
        e,
        ap (cursor_conditions fmt) (decode-encode fmt laws (encoder k) f h)
            ∙ conditions_one (cursor_of k) e built,
        behind,
      )
