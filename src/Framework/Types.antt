-- ===== src/Framework/Types.antt =====
-- src/modules/framework/domain/templates.ts: templates of controls and the profile of an organization.
use dpdpos_backend.Prelude.{ℕ, String, JsText, Bool, Option, List}

pub data MaturityLevel : Type 0 where
  basic intermediate advanced : MaturityLevel

pub data DataSensitivity : Type 0 where
  low_sensitivity medium_sensitivity high_sensitivity : DataSensitivity

pub data RoadmapPhase : Type 0 where
  foundation operations oversight significant_fiduciary : RoadmapPhase

pub record ControlTemplate : Type 0 where
  pub code : String
  pub title : JsText
  pub description : JsText
  pub legal_basis_ref : JsText
  pub phase : RoadmapPhase
  pub due_days_from_generate : ℕ
  pub requirement_codes : List String
  pub always : Option Bool
  pub requires_sdf : Option Bool
  pub min_maturity : Option MaturityLevel
  pub industries : Option (List JsText)
  pub min_department_count : Option ℕ
  pub requires_processors : Option Bool
  pub min_sensitivity : Option DataSensitivity

pub record FrameworkProfile : Type 0 where
  pub industry_profile : JsText
  pub maturity_level : MaturityLevel
  pub data_sensitivity : DataSensitivity
  pub department_count : ℕ
  pub processor_count : ℕ
  pub is_sdf : Bool

unfoldable pub maturity_rank : MaturityLevel → ℕ
maturity_rank basic = 1
maturity_rank intermediate = 2
maturity_rank advanced = 3

unfoldable pub sensitivity_rank : DataSensitivity → ℕ
sensitivity_rank low_sensitivity = 1
sensitivity_rank medium_sensitivity = 2
sensitivity_rank high_sensitivity = 3
