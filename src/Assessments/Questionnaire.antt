-- ===== src/Assessments/Questionnaire.antt =====
-- src/modules/assessments/domain: the questionnaire, its stages, and the answers that an evaluation needs.
pub mod Types
pub mod EngineeringAudit
pub mod OrgProfile
pub mod NoticeConsent
pub mod Rights
pub mod Vendors
pub mod RetentionBreach
pub mod Governance
pub mod Automobile
pub mod BankingFinance
pub mod EcommerceRetail
pub mod EducationEdtech
pub mod FoodManufacturing
pub mod Healthcare
pub mod Hotels
pub mod ItSaas
pub mod SpaceTechnology
pub mod Telecom
pub mod Catalog
pub mod Answers
pub mod Grouping
pub mod Required
