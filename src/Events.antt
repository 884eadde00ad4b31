-- ===== src/Events.antt =====
-- internal/events: events of files, uploads and jobs, sent to the subscribers of a user.
pub mod Maps
pub mod Broadcaster
pub mod Recent
pub mod Polling
pub mod Pollers
pub mod Delivery
mod Examples
