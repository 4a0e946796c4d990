-- ===== src/Database.antt =====
-- The database behind the repositories.
pub mod Table
pub mod Rows
pub mod ListTable
pub mod Versioned
pub mod ByTenant
pub mod Prisma
