-- ===== src/Assessments/Questionnaire/OrgProfile.antt =====
-- src/modules/assessments/domain/questionnaire-core.ts: the questions of the stage org_profile.
use dpdpos_backend.Prelude.{List, [], ◌∷◌, none, some, true, literal}
use dpdpos_backend.Assessments.Questionnaire.Types.{
  QuestionnaireQuestion, boolean_value, string_value,
}

unfoldable pub org_profile_questions : List QuestionnaireQuestion
org_profile_questions =
    record {
      code = "Q-BIZ-MODEL";
      stage_id = "org_profile";
      stage_label = literal "Organisation profile";
      stage_order = 1;
      label = literal "Who do you primarily process personal data for?";
      help_text =
          literal
            "B2C means individuals (customers/users). B2B means other organisations. This shapes notice, consent and rights expectations under DPDP.";
      value_type = string_value;
      options = some ("B2C" ∷ "B2B" ∷ "BOTH" ∷ []);
      required = some true;
      show_if = none;
      industry_domain = none;
    }
    ∷ record {
      code = "Q-DATA-VOLUME";
      stage_id = "org_profile";
      stage_label = literal "Organisation profile";
      stage_order = 1;
      label = literal "Approximate scale of digital personal data you process";
      help_text =
          literal
            "Used for SDF readiness signalling (volume is one factor the Act contemplates for Significant Data Fiduciaries).";
      value_type = string_value;
      options = some ("UNDER_10K" ∷ "10K_TO_100K" ∷ "100K_TO_1M" ∷ "OVER_1M" ∷ []);
      required = some true;
      show_if = none;
      industry_domain = none;
    }
    ∷ record {
      code = "Q-DATA-CATEGORIES";
      stage_id = "org_profile";
      stage_label = literal "Organisation profile";
      stage_order = 1;
      label = literal "What is the primary high-risk personal data category you process?";
      help_text =
          literal
            "Pick the dominant sensitive category. Contact-only is lowest sensitivity; health, biometric, children and government ID raise safeguards.";
      value_type = string_value;
      options = some (
          "CONTACT" ∷ "FINANCIAL" ∷ "HEALTH" ∷ "BIOMETRIC" ∷ "LOCATION" ∷ "CHILDREN"
          ∷ "GOVERNMENT_ID" ∷ "BEHAVIOURAL" ∷ "OTHER" ∷ []);
      required = some true;
      show_if = none;
      industry_domain = none;
    }
    ∷ record {
      code = "Q-CHILDREN-DATA";
      stage_id = "org_profile";
      stage_label = literal "Organisation profile";
      stage_order = 1;
      label = literal "Do you knowingly process personal data of children (under 18)?";
      help_text =
          literal
            "Children’s data attracts stricter verifiable-consent and restriction duties under DPDP Section 9.";
      value_type = boolean_value;
      options = none;
      required = some true;
      show_if = none;
      industry_domain = none;
    }
    ∷ record {
      code = "Q-CROSS-BORDER";
      stage_id = "org_profile";
      stage_label = literal "Organisation profile";
      stage_order = 1;
      label = literal "Is personal data transferred or accessible outside India?";
      help_text =
          literal
            "Cross-border access affects transfer approvals and contractual safeguards with processors.";
      value_type = boolean_value;
      options = none;
      required = some true;
      show_if = none;
      industry_domain = none;
    }
    ∷ record {
      code = "Q-FIDUCIARY-ROLE";
      stage_id = "org_profile";
      stage_label = literal "Organisation profile";
      stage_order = 1;
      label =
          literal
            "For most processing, are you the Data Fiduciary (decide purpose/means) or mainly a Processor?";
      help_text =
          literal
            "Fiduciaries own notice, consent and rights duties. Processors follow customer instructions under a contract.";
      value_type = string_value;
      options = some ("FIDUCIARY" ∷ "PROCESSOR" ∷ "MIXED" ∷ []);
      required = some true;
      show_if = none;
      industry_domain = none;
    }
    ∷ []
