-- ===== src/Rights.antt =====
-- src/modules/rights: requests of data subjects and their erasure workflow.
pub mod Lifecycle
pub mod Types
pub mod Graph
pub mod Repository
pub mod Service
pub mod Resolution
