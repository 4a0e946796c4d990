-- ===== src/Assessments/Questionnaire/SpaceTechnology.antt =====
-- src/modules/assessments/domain/industries/space-technology.ts: the questions of the industry space_technology.
use dpdpos_backend.Prelude.{List, [], ◌∷◌, none, some, true, literal}
use dpdpos_backend.Assessments.Engine.{boolean}
use dpdpos_backend.Assessments.Questionnaire.Types.{
  QuestionnaireQuestion, boolean_value, string_value, space_technology,
}

unfoldable pub space_technology_questions : List QuestionnaireQuestion
space_technology_questions =
    record {
      code = "Q-SPACE-SEGMENT";
      stage_id = "industry_context";
      stage_label = literal "Industry context — Space Technology";
      stage_order = 2;
      label = literal "What is your primary space / aerospace segment?";
      help_text =
          literal
            "Launch, satellite ops, ground stations, and defence-adjacent programmes create different personal-data and security constraints.";
      value_type = string_value;
      options = some (
          "LAUNCH" ∷ "SATELLITE_OPS" ∷ "GROUND_STATION" ∷ "DOWNSTREAM_APPS" ∷ "DEFENCE_ADJACENT"
          ∷ "OTHER" ∷ []);
      required = some true;
      show_if = none;
      industry_domain = some space_technology;
    }
    ∷ record {
      code = "Q-SPACE-WORKFORCE";
      stage_id = "industry_context";
      stage_label = literal "Industry context — Space Technology";
      stage_order = 2;
      label =
          literal
            "Do you process workforce / contractor data with elevated security clearances or biometrics?";
      help_text =
          literal
            "Aerospace HR and site-access systems often hold sensitive employee data — treat as high-risk fiduciary processing.";
      value_type = boolean_value;
      options = none;
      required = some true;
      show_if = none;
      industry_domain = some space_technology;
    }
    ∷ record {
      code = "Q-SPACE-GEO";
      stage_id = "industry_context";
      stage_label = literal "Industry context — Space Technology";
      stage_order = 2;
      label =
          literal
            "Do products process geolocation or earth-observation data linkable to identifiable people / sites?";
      help_text =
          literal
            "Downstream EO/apps can become personal data when individuals or households are identifiable.";
      value_type = boolean_value;
      options = none;
      required = some true;
      show_if = none;
      industry_domain = some space_technology;
    }
    ∷ record {
      code = "Q-SPACE-CROSSBORDER";
      stage_id = "industry_context";
      stage_label = literal "Industry context — Space Technology";
      stage_order = 2;
      label =
          literal
            "Is personal data transferred or accessed across borders (ground stations, cloud regions, partners)?";
      help_text =
          literal
            "Document cross-border transfers and partner access paths for DPDP transfer rules.";
      value_type = boolean_value;
      options = none;
      required = some true;
      show_if = none;
      industry_domain = some space_technology;
    }
    ∷ record {
      code = "Q-SPACE-PARTNERS";
      stage_id = "industry_context";
      stage_label = literal "Industry context — Space Technology";
      stage_order = 2;
      label =
          literal
            "Do international OEMs, agencies, or suppliers receive personal data under contracts?";
      help_text =
          literal
            "Supply-chain and agency partners need DPAs / equivalent terms when personal data is shared.";
      value_type = boolean_value;
      options = none;
      required = some true;
      show_if = none;
      industry_domain = some space_technology;
    }
    ∷ record {
      code = "Q-SPACE-PARTNER-DPA";
      stage_id = "industry_context";
      stage_label = literal "Industry context — Space Technology";
      stage_order = 2;
      label =
          literal
            "Are those partner shares covered by DPAs or government/agency agreements with purpose limits?";
      help_text = literal "Upload sample partner/agency data-sharing terms under Vendor documents.";
      value_type = boolean_value;
      options = none;
      required = some true;
      show_if = some (record { code = "Q-SPACE-PARTNERS"; equals = boolean true });
      industry_domain = some space_technology;
    }
    ∷ record {
      code = "Q-SPACE-EXPORT";
      stage_id = "industry_context";
      stage_label = literal "Industry context — Space Technology";
      stage_order = 2;
      label =
          literal
            "Are export-control / national-security constraints separated from commercial personal-data use?";
      help_text =
          literal
            "Security classifications must not silently expand commercial secondary use of personal data.";
      value_type = boolean_value;
      options = none;
      required = some true;
      show_if = none;
      industry_domain = some space_technology;
    }
    ∷ record {
      code = "Q-SPACE-ACCESS";
      stage_id = "industry_context";
      stage_label = literal "Industry context — Space Technology";
      stage_order = 2;
      label =
          literal
            "Is privileged access to mission / ground systems logged and role-based for personal-data stores?";
      help_text =
          literal
            "Insider access to customer or workforce data in mission systems needs audit trails.";
      value_type = boolean_value;
      options = none;
      required = some true;
      show_if = none;
      industry_domain = some space_technology;
    }
    ∷ record {
      code = "Q-SPACE-BREACH";
      stage_id = "industry_context";
      stage_label = literal "Industry context — Space Technology";
      stage_order = 2;
      label =
          literal
            "Does your breach playbook cover dual reporting (Board / DPDP duties and any sector security obligations)?";
      help_text =
          literal
            "Aerospace incidents may trigger both privacy and security reporting paths — document owners and timelines.";
      value_type = boolean_value;
      options = none;
      required = some true;
      show_if = none;
      industry_domain = some space_technology;
    }
    ∷ []
