-- ===== src/Examples.antt =====
-- The theorems at work on concrete inputs, and tests.
mod Services
mod Scores
mod Assessing
mod Outbox
mod Requests
mod Questions
mod Templates
