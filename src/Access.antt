-- ===== src/Access.antt =====
-- Who may call: the sessions and API keys of internal/auth and pkg/services.
pub mod Rows
pub mod Tables
pub mod Service
pub mod Coherent
pub mod Unchanged
pub mod Checks
pub mod Accepted
pub mod Changes
pub mod Runs
pub mod Moves
pub mod Backed
pub mod Ended
pub mod SessionHash
pub mod Examples
