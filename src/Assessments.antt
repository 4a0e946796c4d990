-- ===== src/Assessments.antt =====
-- src/modules/assessments: the engine that rates controls from questionnaires, documents and findings.
pub mod Controls
pub mod Engine
pub mod Control
pub mod Evaluation
pub mod Questionnaire
pub mod Corroboration
pub mod Score
