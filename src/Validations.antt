-- ===== src/Validations.antt =====
-- src/modules/validations: the rules that turn the register of an organization into violations.
pub mod Rules
pub mod Registry
pub mod Outcomes
