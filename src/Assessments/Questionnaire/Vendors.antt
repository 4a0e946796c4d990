-- ===== src/Assessments/Questionnaire/Vendors.antt =====
-- src/modules/assessments/domain/questionnaire-core.ts: the questions of the stage vendors.
use dpdpos_backend.Prelude.{List, [], ◌∷◌, none, some, true, literal}
use dpdpos_backend.Assessments.Engine.{boolean}
use dpdpos_backend.Assessments.Questionnaire.Types.{QuestionnaireQuestion, boolean_value}

unfoldable pub vendors_questions : List QuestionnaireQuestion
vendors_questions =
    record {
      code = "Q-VENDORS";
      stage_id = "vendors";
      stage_label = literal "Vendors & processors";
      stage_order = 5;
      label = literal "Do you use vendors or other processors for personal data?";
      help_text =
          literal
            "Data Fiduciaries remain accountable for processors. If yes, you will be asked about DPAs.";
      value_type = boolean_value;
      options = none;
      required = some true;
      show_if = none;
      industry_domain = none;
    }
    ∷ record {
      code = "Q-DPA";
      stage_id = "vendors";
      stage_label = literal "Vendors & processors";
      stage_order = 5;
      label = literal "Do signed data processing agreements cover those processors?";
      help_text = literal "Upload sample DPAs under Documents (type: Vendor / processor DPA).";
      value_type = boolean_value;
      options = none;
      required = some true;
      show_if = some (record { code = "Q-VENDORS"; equals = boolean true });
      industry_domain = none;
    }
    ∷ record {
      code = "Q-VENDOR-INVENTORY";
      stage_id = "vendors";
      stage_label = literal "Vendors & processors";
      stage_order = 5;
      label = literal "Do you maintain an inventory of processors and their purposes?";
      help_text =
          literal
            "An inventory (name, purpose, location, DPA status) is the operational backbone of vendor accountability.";
      value_type = boolean_value;
      options = none;
      required = some true;
      show_if = some (record { code = "Q-VENDORS"; equals = boolean true });
      industry_domain = none;
    }
    ∷ []
