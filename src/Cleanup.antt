-- ===== src/Cleanup.antt =====
-- Deleting messages in a channel, and the jobs of pkg/services/queue_executor.go that clean up.
pub mod Messages
pub mod Stale
pub mod Safe
pub mod Pending
pub mod Examples
