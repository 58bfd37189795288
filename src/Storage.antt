-- ===== src/Storage.antt =====
-- internal/storage: what the stores hold, the interfaces of the stores, and the in-memory one.
pub mod Types
pub mod Backend
pub mod Decimal
pub mod Memory
pub mod Metadata
pub mod S3
