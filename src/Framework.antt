-- ===== src/Framework.antt =====
-- src/modules/framework: the templates from which a framework is generated.
pub mod Types
pub mod Requirements
pub mod FirstControls
pub mod LaterControls
pub mod Selection
pub mod Links
pub mod Roadmap
