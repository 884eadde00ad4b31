-- ===== src/Crypt/Decrypter/Header.antt =====
-- Reading the header of an encrypted file.
use teldrive_easy.Prelude.{
  ℕ, ◌≡◌, refl, ap, ◌∙◌, List, [], ◌∷◌, ◌++◌, Option, some, none, length, take, drop, arith, ◌⊎◌,
  inl, inr, append-nil, take_all, drop_all, drop_zero, take_zero, length-append, ltb-false,
  take-append_le, drop-append_le, take-append_add, drop-append_add, true, false,
}
use mathlib.Core.Option.{some-injective}
use teldrive_easy.Prelude.Int.{ℤ, negsuc}
use teldrive_easy.Crypt.Errors.{Error, Result, ok, eof}
use teldrive_easy.Crypt.Nonce.{Nonce, file_nonce_size}
use teldrive_easy.Crypt.Size.{file_header_size, file_magic_size}
use teldrive_easy.Crypt.Source.{Source, read_fill}
use teldrive_easy.Crypt.Source.Fill.{read_fill-Filled}
use teldrive_easy.Crypt.Box.{file_magic_bytes}
use teldrive_easy.Crypt.Decrypter.{Decrypter, bytes_equal, check_magic, check_header, new_decrypter}
use teldrive_easy.Crypt.Decrypter.Reads.{cap}

-- A caller's `open` that gives the bytes of `file` from an offset on, up to a limit, and then the
-- end of the file.
abbrev pub OpensFile : (ℕ → ℤ → Result Source) → List ℕ → Type 0
OpensFile open_range file =
    (offset : ℕ) (limit : ℤ)
    → (s : Source) × (open_range offset limit ≡ ok s)
      × (s.bytes ≡ cap limit (drop offset file))
      × (s.tail ≡ eof)

bytes_equal_refl : (xs : List ℕ) → bytes_equal xs xs ≡ true
unfolding bytes_equal
bytes_equal_refl [] = refl
bytes_equal_refl (x ∷ xs) = ground (arith, bytes_equal_refl xs)

-- The decrypter that `newDecrypter` makes from a file with nonce `n`.
abbrev pub fresh : List ℕ → Nonce → Source → Decrypter
fresh key n rc = record {
  rc = rc;
  key = key;
  nonce = n;
  initial_nonce = n;
  buf = [];
  buf_index = 0;
  buf_size = 0;
  failure = none;
  limit = negsuc 0;
  seekable = false;
}

check_magic-ok :
    (key : List ℕ) (n : Nonce) (rc : Source)
    → check_magic key (file_magic_bytes ++ n) rc ≡ ok (fresh key n rc)
unfolding check_magic
check_magic-ok key n rc =
    let magic : take file_magic_size (file_magic_bytes ++ n) ≡ file_magic_bytes =
      take-append_add file_magic_bytes n 0
      ∙ ap (◌++◌ file_magic_bytes) (take_zero n)
      ∙ append-nil file_magic_bytes in
    let nonce : drop file_magic_size (file_magic_bytes ++ n) ≡ n =
      drop-append_add file_magic_bytes n 0 ∙ drop_zero n in
    rw (magic, nonce, bytes_equal_refl file_magic_bytes)

check_header-ok :
    (e : Option Error) (head : List ℕ) (checked : Result Decrypter)
    → (e ≡ none) ⊎ (e ≡ some eof)
    → length head ≡ file_header_size
    → check_header e head checked ≡ checked
unfolding check_header
check_header-ok none head checked h l = refl
check_header-ok (some x) head checked (inl h) l = cc
check_header-ok (some x) head checked (inr h) l = rw (
  some-injective x eof h,
  check_header,
  ltb-false {a = length head} {b = file_header_size} (omega arith),
)

-- A file that starts with the header is accepted, and its reader stands behind the header.
pub new_decrypter_header :
    (key : List ℕ) (n : Nonce) (rc : Source) (rest : List ℕ)
    → length n ≡ file_nonce_size
    → rc.bytes ≡ (file_magic_bytes ++ n) ++ rest
    → rc.tail ≡ eof
    → (rc' : Source) × (new_decrypter key rc ≡ ok (fresh key n rc'))
      × (rc'.bytes ≡ rest)
      × (rc'.tail ≡ eof)
unfolding new_decrypter
new_decrypter_header key n rc rest l bytes tail =
    let f = read_fill-Filled file_header_size rc in
    let size : length (file_magic_bytes ++ n) ≡ file_header_size =
      omega (arith, length-append file_magic_bytes n) in
    let head : (read_fill file_header_size rc).0 ≡ file_magic_bytes ++ n =
      f.got
      ∙ ap (take file_header_size) bytes
      ∙ take-append_le file_header_size (file_magic_bytes ++ n) rest (omega arith)
      ∙ take_all file_header_size (file_magic_bytes ++ n) (omega arith) in
    let left : (read_fill file_header_size rc).2.bytes ≡ rest =
      f.left.bytes_left
      ∙ ap (drop file_header_size) bytes
      ∙ drop-append_le file_header_size (file_magic_bytes ++ n) rest (omega arith)
      ∙ ap (λ x. x ++ rest) (drop_all file_header_size (file_magic_bytes ++ n) (omega arith)) in
    (
      (read_fill file_header_size rc).2,
      ap
            (λ h.
              check_header (read_fill file_header_size rc).1 h
                (check_magic key h (read_fill file_header_size rc).2))
            head
          ∙ check_header-ok (read_fill file_header_size rc).1 (file_magic_bytes ++ n) _
              (elim f.report [ inl quiet ↦ inl quiet | inr (_, e) ↦ inr (e ∙ ap some tail) ]) size
          ∙ check_magic-ok key n (read_fill file_header_size rc).2,
      left,
      f.left.same_tail ∙ tail,
    )
