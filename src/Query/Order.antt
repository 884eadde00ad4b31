-- ===== src/Query/Order.antt =====
-- The order of a listing, and the cursors of its rows.

use teldrive_easy.Prelude.{
  ℕ, ◌-◌, ◌<◌, ◌≡◌, ◌⊎◌, refl, ap, ap₂, ◌∙◌, Bool, true, false, List, [], ◌∷◌, ◌++◌, Option, none,
  some, arith, ltb, leb-false, length, drop, take-append_le, take_all, drop-append_add,
  length-append, drop_zero,
}
use teldrive_easy.Text.{Text, last_index, last_index-append, Lacks}
use teldrive_easy.Query.Condition.{File, Database}
use teldrive_easy.Query.Cursor.{
  SortField, name, size, id, updated_at, is_asc, Formats, CursorEncoder, encode, decode,
  condition_of, halves, cursor_val, colon, ok,
}

-- What is written can be read again, and no id is empty or has a colon.
pub record RoundTrips (fmt : Formats) : Type 0 where
  pub sizes : (n : ℕ) → fmt.parse_size (fmt.print_size n) ≡ some n
  pub ids : (n : ℕ) → fmt.parse_id (fmt.print_id n) ≡ some n
  pub times : (n : ℕ) → fmt.parse_time (fmt.print_time n) ≡ some n
  pub no_colon : (n : ℕ) → Lacks colon (fmt.print_id n)
  pub some_id : (n : ℕ) → 0 < length (fmt.print_id n)

-- The order of a collation.
pub record Orders (db : Database) : Type 0 where
  pub irreflexive : (a : Text) → db.text_less a a ≡ false
  pub asymmetric : (a b : Text) → db.text_less a b ≡ true → db.text_less b a ≡ false

-- NULL is the largest size.
abbrev pub size_less : Option ℕ → Option ℕ → Bool
size_less none b = false
size_less (some a) none = true
size_less (some a) (some b) = ltb a b

-- One column of an ORDER BY: `f` is less than `g` there, or the same.
abbrev pub key_less : Database → SortField → File → File → Bool
key_less db name f g = db.text_less f.name g.name
key_less db size f g = size_less f.size g.size
key_less db id f g = ltb f.id g.id
key_less db updated_at f g = ltb f.updated_at g.updated_at

abbrev pub key_before : Database → SortField → Bool → File → File → Bool
key_before db k true f g = key_less db k f g
key_before db k false f g = key_less db k g f

abbrev pub KeySame : SortField → File → File → Type 0
KeySame name f g = f.name ≡ g.name
KeySame size f g = f.size ≡ g.size
KeySame id f g = f.id ≡ g.id
KeySame updated_at f g = f.updated_at ≡ g.updated_at

-- An ORDER BY puts `f` before `g`.
abbrev pub Precedes : Database → List (SortField × Bool) → File → File → Type 0
Precedes db [] f g = ⊥
Precedes db ((k, up) ∷ ks) f g =
    (key_before db k up f g ≡ true) ⊎ (KeySame k f g × Precedes db ks f g)

-- A file whose cursor has a value in front of the colon: an empty name has none, and neither has a
-- missing size where that is the sort field.
abbrev pub HasKey : Formats → SortField → File → Type 0
HasKey fmt k f = 0 < length (cursor_val fmt k f)

drop_one : (c : ℕ) (p : Text) → drop 1 (c ∷ p) ≡ p
unfolding drop
drop_one c p = drop_zero p

module _ (fmt : Formats) (laws : RoundTrips fmt) where
  decode_some :
      (c : CursorEncoder) (xs : Text)
      → 0 < length xs
      → decode fmt c xs ≡ condition_of fmt c (halves fmt (last_index colon xs) xs)
  unfolding decode
  decode_some c [] h = absurd (omega arith)
  decode_some c (x ∷ xs) h = refl

  halves_split :
      (v p : Text)
      → 0 < length v
      → 0 < length p
      → halves fmt (some (length v)) (v ++ colon ∷ p) ≡ some (v, p)
  unfolding halves
  halves_split v p hv hp =
      rw
        (
          leb-false {a = length v} {b = 0} hv,
          leb-false {a = length (v ++ colon ∷ p) - 1} {b = length v}
              (omega (arith, length-append v (colon ∷ p))),
        )
        (ap some (
          ap₂ (λ a b. (a, b))
            (take-append_le (length v) v (colon ∷ p) (omega arith)
              ∙ take_all (length v) v (omega arith))
            (drop-append_add v (colon ∷ p) 1 ∙ drop_one colon p)))

  -- Where values are read back as they were written and no id has a colon, the cursor of a file
  -- with a value in front of the colon is decoded to that value and the id of the file.
  pub decode-encode :
      (c : CursorEncoder) (f : File)
      → HasKey fmt c.sort_field f
      → decode fmt c (encode fmt c f)
        ≡ ok (
            some (record {
              cursor_value = cursor_val fmt c.sort_field f;
              cursor_id = f.id;
              field = c.sort_field;
              ascending = is_asc c.order;
            }))
  unfolding encode condition_of
  decode-encode c f h =
      let v = cursor_val fmt c.sort_field f in
      let p = fmt.print_id f.id in
      decode_some c (v ++ colon ∷ p) (omega (arith, length-append v (colon ∷ p)))
      ∙ ap (λ i. condition_of fmt c (halves fmt i (v ++ colon ∷ p)))
          (last_index-append colon v p (laws.no_colon f.id))
      ∙ ap (condition_of fmt c) (halves_split v p h (laws.some_id f.id))
      ∙ rw (laws.ids f.id, condition_of) refl
