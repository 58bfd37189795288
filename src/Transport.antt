-- ===== src/Transport.antt =====
-- internal/transport/httpx and internal/config: requests, access control and handlers.
pub mod Limiter
pub mod Slugs
pub mod Access
pub mod Responses
pub mod Comments
pub mod Agent
pub mod Docs
pub mod Assets
pub mod Sessions
pub mod Routes
pub mod Export
