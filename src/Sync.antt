-- ===== src/Sync.antt =====
-- Mirroring a remote directory: pkg/services/imports_jobs.go and its helpers.
pub mod ChunkSize
pub mod Parts
pub mod Transfer
pub mod Resume
pub mod Staged
pub mod Leaves
pub mod Uploaded
pub mod Finished
pub mod Plan
pub mod Removed
pub mod Planned
pub mod Deletions
pub mod ResumeEnds
pub mod Summary
pub mod Examples
