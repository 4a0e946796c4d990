-- ===== src/Vendors.antt =====
-- src/modules/vendors: the score of the risk that a vendor carries.
pub mod Scorecard
pub mod Bounds
