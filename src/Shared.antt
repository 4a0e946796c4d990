-- ===== src/Shared.antt =====
-- src/shared: errors, the request context, results and the texts of error messages.
pub mod Errors
pub mod Context
pub mod Tenant
pub mod Transaction
pub mod Users
pub mod Permissions
pub mod Guards
pub mod Catalog
pub mod Presets
