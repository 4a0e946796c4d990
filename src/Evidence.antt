-- ===== src/Evidence.antt =====
-- src/modules/evidence: the lifecycle of evidence.
pub mod Lifecycle
