-- ===== src/Crypt.antt =====
-- internal/crypt/cipher.go, part by part.
pub mod Errors
pub mod Nonce
pub mod Size
pub mod Source
pub mod Box
pub mod Encrypter
pub mod Decrypter
mod Examples
