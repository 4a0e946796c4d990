-- ===== src/Framework/Selection.antt =====
-- src/modules/framework/domain/templates.ts: `selectTemplatesForProfile` and the phases of
-- `buildRoadmapJson`. Industries are compared in lower case.
use dpdpos_backend.Prelude.{
  ℕ, String, JsText, trim, Bool, true, false, not, ◌&&◌, Option, none, some, List, [], ◌∷◌, ◌++◌,
  filter, any, leb, ltb, text_eq, to_lower_case, includes_string,
}
use dpdpos_backend.Framework.Types.{
  ControlTemplate, FrameworkProfile, MaturityLevel, DataSensitivity, maturity_rank,
  sensitivity_rank,
}
use dpdpos_backend.Framework.Requirements.{RequirementTemplate, requirement_templates}
use dpdpos_backend.Framework.FirstControls.{first_control_templates}
use dpdpos_backend.Framework.LaterControls.{later_control_templates}

unfoldable pub control_templates : List ControlTemplate
control_templates = first_control_templates ++ later_control_templates

abbrev pub is_set : Option Bool → Bool
is_set none = false
is_set (some b) = b

abbrev pub reaches_count : ℕ → Option ℕ → Bool
reaches_count n none = true
reaches_count n (some least) = leb least n

abbrev pub reaches_maturity : MaturityLevel → Option MaturityLevel → Bool
reaches_maturity level none = true
reaches_maturity level (some least) = leb (maturity_rank least) (maturity_rank level)

abbrev pub reaches_sensitivity : DataSensitivity → Option DataSensitivity → Bool
reaches_sensitivity level none = true
reaches_sensitivity level (some least) = leb (sensitivity_rank least) (sensitivity_rank level)

-- An empty list of industries leaves out nobody.
abbrev pub is_allowed_industry : JsText → Option (List JsText) → Bool
is_allowed_industry industry none = true
is_allowed_industry industry (some []) = true
is_allowed_industry industry (some (i ∷ is)) =
    any (λ a. text_eq (to_lower_case a) industry) (i ∷ is)

unfoldable pub is_selected : FrameworkProfile → ControlTemplate → Bool
is_selected profile tpl =
    not (is_set tpl.requires_sdf && not profile.is_sdf)
    && not (is_set tpl.requires_processors && ltb profile.processor_count 1)
    && reaches_count profile.department_count tpl.min_department_count
    && reaches_maturity profile.maturity_level tpl.min_maturity
    && reaches_sensitivity profile.data_sensitivity tpl.min_sensitivity
    && is_allowed_industry (to_lower_case (trim profile.industry_profile)) tpl.industries

unfoldable pub selected_controls : FrameworkProfile → List ControlTemplate
selected_controls profile = filter (is_selected profile) control_templates

-- `controls.flatMap((c) => c.requirementCodes)`.
unfoldable pub codes_of : List ControlTemplate → List String
codes_of [] = []
codes_of (c ∷ controls) = c.requirement_codes ++ codes_of controls

unfoldable pub selected_requirements : List ControlTemplate → List RequirementTemplate
selected_requirements controls =
    filter (λ (r : RequirementTemplate). includes_string (codes_of controls) r.code)
      requirement_templates

pub record SelectedFrameworkTemplates : Type 0 where
  pub controls : List ControlTemplate
  pub requirements : List RequirementTemplate

unfoldable pub select_templates_for_profile : FrameworkProfile → SelectedFrameworkTemplates
select_templates_for_profile profile =
    let controls = selected_controls profile in
    record { controls = controls; requirements = selected_requirements controls }
