-- ===== src/Core.antt =====
-- internal/core: comments as event logs, their fold, the operations on them, and the markup helpers.
pub mod Types
pub mod Runtime
pub mod Events
pub mod Legacy
pub mod Apply
pub mod Fold
pub mod Reconcile
pub mod Requests
pub mod Ops
pub mod Cyrb53
pub mod Stamp
pub mod Markup
