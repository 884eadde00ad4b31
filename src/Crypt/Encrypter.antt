-- ===== src/Crypt/Encrypter.antt =====
-- The encrypting reader of internal/crypt/cipher.go.
pub mod Reads
use teldrive_easy.Prelude.{
  ℕ, ◌+◌, ◌-◌, min, Bool, true, false, List, [], ◌∷◌, ◌++◌, Option, none, some, length, take, drop,
  leb, if◌then◌else◌, ◌==◌,
}
use teldrive_easy.Crypt.Errors.{Error, Result, ok, err, short_nonce}
use teldrive_easy.Crypt.Nonce.{Nonce, increment, file_nonce_size}
use teldrive_easy.Crypt.Size.{file_header_size, block_header_size, block_data_size}
use teldrive_easy.Crypt.Source.{Source, read_fill}
use teldrive_easy.Crypt.Box.{SecretBox, file_magic_bytes}

-- `buf` holds the bytes that were last written to the block; `[]` stands for `nil`. The bytes
-- from `buf_index` up to `buf_size` are still to be read.
pub record Encrypter : Type 0 where
  pub input : Source
  pub key : List ℕ
  pub nonce : Nonce
  pub buf : List ℕ
  pub buf_index : ℕ
  pub buf_size : ℕ
  pub failure : Option Error

-- `nonce.fromReader`: a short read is an error.
unfoldable pub nonce_from_reader : Source → Result Nonce
nonce_from_reader random =
    let (bytes, _, _) = read_fill file_nonce_size random in
    if length bytes == file_nonce_size then ok bytes else err short_nonce

pub start : List ℕ → Source → Nonce → Encrypter
start key input nonce = record {
  input = input;
  key = key;
  nonce = nonce;
  buf = file_magic_bytes ++ nonce;
  buf_index = 0;
  buf_size = file_header_size;
  failure = none;
}

-- `newEncrypter`: the nonce is given, or comes from `cryptoRand`.
unfoldable pub new_encrypter : List ℕ → Source → Source → Option Nonce → Result Encrypter
unfolding start
new_encrypter key random input (some nonce) = ok (start key input nonce)
new_encrypter key random input none = elim (nonce_from_reader random) [
  | ok nonce ↦ ok (start key input nonce)
  | err e ↦ err e
]

-- `finish`, when no error is recorded yet.
finish : Option Error → Encrypter → Encrypter
finish e fh = record fh { failure = e; buf = [] }

-- The bytes that the buffer still holds for the reader.
abbrev pub window : Encrypter → List ℕ
window fh = take (fh.buf_size - fh.buf_index) (drop fh.buf_index fh.buf)

-- `copy(p, buf[bufIndex:bufSize])` into `k` bytes.
copy_out : ℕ → Encrypter → List ℕ × Option Error × Encrypter
copy_out k fh =
    let bytes = take k (window fh) in
    (bytes, none, record fh { buf_index = fh.buf_index + length bytes })

module _ (box : SecretBox) where
  open box use {seal}

  refill : List ℕ × Option Error × Source → Encrypter → Encrypter
  refill (bytes, e, input) fh = record fh {
    input = input;
    buf = seal fh.key fh.nonce bytes;
    buf_index = 0;
    buf_size = block_header_size + length bytes;
    nonce = increment fh.nonce;
  }

  -- `Read` into a buffer of `k` bytes.
  unfoldable pub read : ℕ → Encrypter → List ℕ × Option Error × Encrypter
  unfolding finish copy_out refill
  read k fh = elim fh.failure [
    | some e ↦ ([], some e, fh)
    | none ↦
        let filled = read_fill block_data_size fh.input in
        if leb fh.buf_size fh.buf_index
        then if length filled.0 == 0
          then ([], filled.1, finish filled.1 (record fh { input = filled.2 }))
          else copy_out k (refill filled fh)
        else copy_out k fh
  ]
