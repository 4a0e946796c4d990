-- ===== src/Remediation.antt =====
-- src/modules/remediation: remediation tasks.
pub mod Lifecycle
pub mod Types
pub mod Repository
pub mod Inputs
pub mod Service
pub mod Writes
pub mod Effects
pub mod Creation
pub mod Runs
pub mod Verification
pub mod Dedupe
pub mod Locking
pub mod Graph
pub mod Deliveries
pub mod Redelivery
