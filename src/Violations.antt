-- ===== src/Violations.antt =====
-- src/modules/violations: compliance violations.
pub mod Lifecycle
pub mod Types
pub mod Repository
pub mod Inputs
pub mod Service
pub mod Closing
pub mod Graph
