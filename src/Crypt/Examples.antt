-- ===== src/Crypt/Examples.antt =====
-- Runs of internal/crypt/cipher.go on a small file, with a box that adds sixteen zeros.
use teldrive_easy.Prelude.{
  ℕ, zero, suc, ◌+◌, ◌*◌, ◌^◌, ◌%◌, ◌<◌, ◌≤◌, ◌≡◌, ◌↔◌, refl, ap, ◌∙◌, List, [], ◌∷◌, ◌++◌, Option,
  some, false, true, replicate, drop, take, length, length-append, length-replicate, drop-append_le,
  drop_all, arith,
}
use teldrive_easy.Prelude.Int.{ℤ, pos, negsuc}
use teldrive_easy.Stream.{read_all, AllPositive}
use teldrive_easy.Crypt.Errors.{Result, ok, eof}
use teldrive_easy.Crypt.Nonce.{Nonce, IsBytes, add, value}
use teldrive_easy.Crypt.Nonce.Value.{increments, add-increments, add-value}
use teldrive_easy.Crypt.Size.{
  calculate_underlying, blocks_to_read, block_data_size, block_size, file_header_size,
  encrypted_size, decrypted_size,
}
use teldrive_easy.Crypt.Size.Laws.{decrypted_size_iff, blocks_to_read_bounds}
use teldrive_easy.Crypt.Source.{Source, read_fill}
use teldrive_easy.Crypt.Source.Fill.{Filled, read_fill-Filled}
use teldrive_easy.Crypt.Box.{SecretBox, encrypted, body, seal_blocks}
use teldrive_easy.Crypt.Encrypter as Encrypts
use teldrive_easy.Crypt.Encrypter.Reads.{read_all-new_encrypter}
use teldrive_easy.Crypt.Decrypter as Decrypts
use teldrive_easy.Crypt.Decrypter.Reads.{cap}
use teldrive_easy.Crypt.Decrypter.Open.{read_all-new_decrypter_seek}
use teldrive_easy.Prelude.Slices.{slice}
use teldrive_easy.Reader.Ranges.{Range, part_bytes}
use teldrive_easy.Reader.Parts.{Error, Part, Reader, new_reader}
use teldrive_easy.Reader.Parts as Parts
use teldrive_easy.Reader.Parts.Encrypted.{
  StreamsPart, part_read, open_part, read_all-encrypted, size_at,
}

abbrev pad : List ℕ
pad = replicate 16 0

open_pad : (m : List ℕ) → drop 16 (pad ++ m) ≡ m
open_pad m =
    drop-append_le 16 pad m (omega (arith, length-replicate {A = ℕ} 16 0))
    ∙ ap (λ x. x ++ m) (drop_all 16 pad (omega (arith, length-replicate {A = ℕ} 16 0)))

abbrev padded_box : SecretBox
padded_box = record {
  seal = λ key n m. pad ++ m;
  open_box = λ key n c. some (drop 16 c);
  length-seal = λ key n m. omega (arith, length-append pad m, length-replicate {A = ℕ} 16 0);
  open_box-seal = λ key n m. ap some (open_pad m);
}

abbrev zeros : Nonce
zeros = replicate 24 0

abbrev message : List ℕ
message = 1 ∷ 2 ∷ 3 ∷ []

abbrev stored : List ℕ
stored = encrypted padded_box [] zeros message

length-stored : length stored ≡ 53
unfolding body seal_blocks take drop
length-stored = refl

abbrev open_stored : ℕ → ℤ → Result Source
open_stored offset limit =
    ok (record { bytes = cap limit (drop offset stored); tail = eof; eager = false; schedule = [] })

replicate-IsBytes : (k : ℕ) → IsBytes (replicate k 0)
replicate-IsBytes zero = tt
replicate-IsBytes (suc k) = (omega arith, replicate-IsBytes k)

replicate-AllPositive : (k : ℕ) → AllPositive (replicate k 1)
replicate-AllPositive zero = tt
replicate-AllPositive (suc k) = (omega arith, replicate-AllPositive k)

read_all-new_decrypter_seek_example :
    (fh : Decrypts.Decrypter) × (Decrypts.new_decrypter_seek padded_box open_stored [] 1 (pos 1)
      ≡ ok fh)
    × ((read_all (Decrypts.read padded_box) (replicate 4 1) fh).0 ≡ cap (pos 1) (drop 1 message))
    × ((read_all (Decrypts.read padded_box) (replicate 4 1) fh).1 ≡ some eof)
read_all-new_decrypter_seek_example =
    read_all-new_decrypter_seek padded_box [] zeros message open_stored
      (λ offset limit. (_, refl, refl, refl)) (replicate-IsBytes 24) refl 1 (pos 1) (replicate 4 1)
      (λ _. omega arith) (omega arith) (replicate-AllPositive 4) (omega arith)

abbrev message_source : Source
message_source = record { bytes = message; tail = eof; eager = true; schedule = 2 ∷ [] }

read_all-new_encrypter_example :
    ((read_all
        (Encrypts.read padded_box)
        (replicate 100 1)
        (Encrypts.start [] message_source zeros)).0
      ≡ stored)
    × ((read_all
          (Encrypts.read padded_box)
          (replicate 100 1)
          (Encrypts.start [] message_source zeros)).1
        ≡ some eof)
unfolding Encrypts.new_encrypter
read_all-new_encrypter_example =
    read_all-new_encrypter padded_box [] message_source message_source zeros (replicate 100 1)
      (Encrypts.start [] message_source zeros) refl (replicate-AllPositive 100)
      (omega (arith, length-stored)) refl

add-increments_example : add 70000 zeros ≡ increments 70000 zeros
add-increments_example =
    add-increments 70000 zeros (replicate-IsBytes 24) (omega arith) (omega arith)

add-value_example : value (add 70000 zeros) ≡ (value zeros + 70000 % 2 ^ 64) % 256 ^ length zeros
add-value_example = add-value 70000 zeros (replicate-IsBytes 24) (omega arith)

decrypted_size_iff_example : (decrypted_size 53 ≡ ok 3) ↔ (encrypted_size 3 ≡ 53)
decrypted_size_iff_example = decrypted_size_iff 53 3

blocks_to_read_bounds_example :
    let u = calculate_underlying 70000 (pos 100000) in
    let count = blocks_to_read u.discard 100000 in
    (u.blocks * block_data_size + u.discard ≡ 70000)
    × (u.limit ≡ pos (count * block_size))
    × (u.offset ≡ file_header_size + u.blocks * block_size)
    × (70000 + 100000 ≤ (u.blocks + count) * block_data_size)
    × ((u.blocks + count) * block_data_size < 70000 + 100000 + block_data_size)
blocks_to_read_bounds_example = blocks_to_read_bounds 70000 100000 (omega arith)

read_fill-Filled_example : Filled 2 [] message_source (read_fill 2 message_source)
read_fill-Filled_example = read_fill-Filled 2 message_source

-- A part of two bytes and one of the last byte, stored encrypted under one nonce.
abbrev stored_part : ℕ → List ℕ
stored_part p = encrypted padded_box [] zeros (part_bytes message 2 p)

abbrev between : ℕ → ℤ → List ℕ → List ℕ
between start (pos end) file = slice start (end + 1) file
between start (negsuc l) file = []

abbrev part_streams : ℕ → ℕ → ℤ → Result Source
part_streams p start end =
    ok (record {
      bytes = between start end (stored_part p);
      tail = eof;
      eager = false;
      schedule = [];
    })

-- A part of two bytes, and one of a single byte.
abbrev two_bytes : Part
two_bytes = record { size = 52; decrypted_size = 2 }

abbrev one_byte : Part
one_byte = record { size = 51; decrypted_size = 1 }

part_streams-StreamsPart : (p : ℕ) → StreamsPart (part_streams p) (stored_part p)
part_streams-StreamsPart p start end le h = (_, refl, refl, refl)

size_at-stored : (p : ℕ) → p < 2 → size_at (two_bytes ∷ one_byte ∷ []) p ≡ length (stored_part p)
unfolding size_at seal_blocks body take drop
size_at-stored zero h = refl
size_at-stored (suc zero) h = refl
size_at-stored (suc (suc p)) h = absurd (omega arith)

abbrev reads_part : ℕ → Decrypts.Decrypter → List ℕ × Option Error × Decrypts.Decrypter
reads_part = part_read (λ e. 0) padded_box

abbrev opens_part : Range → Parts.Result Decrypts.Decrypter
opens_part = open_part (λ e. 0) padded_box (two_bytes ∷ one_byte ∷ []) part_streams (λ p. [])

read_all-encrypted_example :
    (r : Reader reads_part opens_part) × (new_reader reads_part opens_part true
        (two_bytes ∷ one_byte ∷ [])
        1
        2
      ≡ Parts.ok r)
    × ((read_all (Parts.read reads_part opens_part) (replicate 4 1) r).0 ≡ slice 1 3 message)
    × ((read_all (Parts.read reads_part opens_part) (replicate 4 1) r).1 ≡ some Parts.eof)
read_all-encrypted_example =
    read_all-encrypted (λ e. 0) padded_box part_streams (λ p. []) (λ p. zeros) two_bytes
      (one_byte ∷ []) message 1 2 (replicate 4 1) size_at-stored part_streams-StreamsPart
      (λ p. replicate-IsBytes 24) (λ p. refl) (omega arith) (omega arith) (omega arith)
      (omega arith) (omega arith) (replicate-AllPositive 4) (omega arith)
