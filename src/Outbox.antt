-- ===== src/Outbox.antt =====
-- src/events: domain events and the transactional outbox.
pub mod Events
pub mod Claims
pub mod ListQuery
pub mod Relay
pub mod Locks
pub mod Delivery
pub mod Attempts
pub mod Exclusion
