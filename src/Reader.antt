-- ===== src/Reader.antt =====
-- internal/reader: serving a byte range of a file that is stored in parts.
pub mod Ranges
pub mod Chunks
pub mod Multi
pub mod Parts
mod Examples
