-- ===== src/Service.antt =====
-- internal/service: the services over a backend.
pub mod World
pub mod Ids
pub mod Comments
pub mod Records
pub mod Numbering
pub mod Docs
pub mod Assets
pub mod Collection
pub mod Auth
