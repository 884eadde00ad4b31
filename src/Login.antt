-- ===== src/Login.antt =====
-- Logging in to Telegram: the attempts of pkg/services/auth_attempts.go.
pub mod Channels
pub mod Attempt
pub mod Session
pub mod Command
pub mod Service
pub mod Examples
