-- ===== src/Examples/Templates.antt =====
-- The framework that src/modules/framework generates for a school.
use dpdpos_backend.Prelude.{
  ◌≡◌, List, length, refl, literal, true, false, none, some, [], ◌∷◌, Memᴰ, any, arith, str_eq,
}
use dpdpos_backend.Framework.Types.{
  ControlTemplate, FrameworkProfile, basic, advanced, low_sensitivity, medium_sensitivity,
  foundation, maturity_rank, sensitivity_rank,
}
use dpdpos_backend.Framework.Requirements.{RequirementTemplate}
use dpdpos_backend.Framework.FirstControls.{first_control_templates}
use dpdpos_backend.Framework.Selection.{
  control_templates, is_selected, selected_controls, select_templates_for_profile,
}
use dpdpos_backend.Framework.Roadmap.{
  RoadmapControl, build_roadmap_json, listed, AllFilled, roadmap_lists_all,
}
use dpdpos_backend.Framework.Links.{requirements_complete, is_selected_monotone}

abbrev school : FrameworkProfile
school = record {
  industry_profile = literal " Education";
  maturity_level = basic;
  data_sensitivity = low_sensitivity;
  department_count = 2;
  processor_count = 0;
  is_sdf = false;
}

abbrev university : FrameworkProfile
university = record school {
  maturity_level = advanced;
  data_sensitivity = medium_sensitivity;
  department_count = 9;
  processor_count = 3;
}

abbrev notice_control : ControlTemplate
notice_control = record {
  code = "CTRL-NOTICE";
  title = literal "Privacy notice program";
  description = literal "Establish and maintain privacy notices for all collection points.";
  legal_basis_ref = literal "DPDP Act 2023 s.5";
  phase = foundation;
  due_days_from_generate = 30;
  requirement_codes = "REQ-NOTICE-01" ∷ [];
  always = some true;
  requires_sdf = none;
  min_maturity = none;
  industries = none;
  min_department_count = none;
  requires_processors = none;
  min_sensitivity = none;
}

notice_is_selected : Memᴰ notice_control (select_templates_for_profile school).controls
unfolding select_templates_for_profile selected_controls control_templates first_control_templates
    is_selected
notice_is_selected = Memᴰ.head refl

requirements_complete_example :
    any
      (λ (r : RequirementTemplate). str_eq r.code "REQ-NOTICE-01")
      (select_templates_for_profile school).requirements
    ≡ true
requirements_complete_example =
    requirements_complete school notice_control "REQ-NOTICE-01" notice_is_selected refl

notice_meets : is_selected school notice_control ≡ true
unfolding is_selected
notice_meets = refl

is_selected_monotone_example : is_selected university notice_control ≡ true
unfolding maturity_rank sensitivity_rank
is_selected_monotone_example =
    is_selected_monotone school university notice_control refl (omega arith) (omega arith)
      (omega arith) (omega arith) (λ h. cc h) notice_meets

abbrev planned : List RoadmapControl
planned =
    record {
      code = "CTRL-NOTICE";
      title = literal "Privacy notice program";
      phase = foundation;
      due_at = "2026-01-31T00:00:00.000Z";
    }
    ∷ []

roadmap_lists_all_example :
    let roadmap = build_roadmap_json school planned 1 "2026-01-01T00:00:00.000Z" in
    (listed roadmap.phases ≡ roadmap.control_count)
    × AllFilled roadmap.phases
    × (length roadmap.phases ≡ roadmap.phase_count)
roadmap_lists_all_example = roadmap_lists_all school planned 1 "2026-01-01T00:00:00.000Z"
