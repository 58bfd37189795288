-- ===== src/Examples.antt =====
-- The code and the theorems at concrete inputs.
pub mod Core
pub mod Storage
pub mod Ops
pub mod Service
pub mod Platform
pub mod Assets
pub mod Auth
pub mod Transport
pub mod Removal
pub mod Stamp
pub mod Backends
pub mod Routes
pub mod Exports
