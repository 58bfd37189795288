-- ===== src/Platform.antt =====
-- internal/platform: application errors and the actions that may raise them, and the per-slug lock.
pub mod Errors
pub mod Exec
pub mod Lock
