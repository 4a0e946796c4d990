-- ===== src/Assessments/Questionnaire/Healthcare.antt =====
-- src/modules/assessments/domain/industries/healthcare.ts: the questions of the industry healthcare.
use dpdpos_backend.Prelude.{List, [], ◌∷◌, none, some, true, literal}
use dpdpos_backend.Assessments.Engine.{boolean}
use dpdpos_backend.Assessments.Questionnaire.Types.{
  QuestionnaireQuestion, boolean_value, string_value, healthcare,
}

unfoldable pub healthcare_questions : List QuestionnaireQuestion
healthcare_questions =
    record {
      code = "Q-HLTH-SETTING";
      stage_id = "industry_context";
      stage_label = literal "Industry context — Healthcare";
      stage_order = 2;
      label = literal "What is your primary care / health setting?";
      help_text = literal "Setting drives clinical-record norms, consent UX, and sharing patterns.";
      value_type = string_value;
      options =
          some (
            "HOSPITAL" ∷ "CLINIC" ∷ "LAB" ∷ "HEALTH_APP" ∷ "TELEMEDICINE" ∷ "PHARMA" ∷ "OTHER"
            ∷ []);
      required = some true;
      show_if = none;
      industry_domain = some healthcare;
    }
    ∷ record {
      code = "Q-HLTH-RECORDS";
      stage_id = "industry_context";
      stage_label = literal "Industry context — Healthcare";
      stage_order = 2;
      label = literal "Do you create or store electronic health / clinical records?";
      help_text =
          literal
            "Clinical records are high-sensitivity — expect stricter access and retention mapping.";
      value_type = boolean_value;
      options = none;
      required = some true;
      show_if = none;
      industry_domain = some healthcare;
    }
    ∷ record {
      code = "Q-HLTH-CONSENT-TX";
      stage_id = "industry_context";
      stage_label = literal "Industry context — Healthcare";
      stage_order = 2;
      label =
          literal
            "For clinical treatment, is notice/consent adapted for care delivery (not only app signup)?";
      help_text =
          literal
            "Treatment contexts need patient-facing notice that matches how data is used in care workflows.";
      value_type = boolean_value;
      options = none;
      required = some true;
      show_if = none;
      industry_domain = some healthcare;
    }
    ∷ record {
      code = "Q-HLTH-RESEARCH";
      stage_id = "industry_context";
      stage_label = literal "Industry context — Healthcare";
      stage_order = 2;
      label = literal "Is patient data used for research, analytics, or commercial secondary use?";
      help_text =
          literal
            "Secondary use beyond treatment usually needs separate consent or another lawful basis.";
      value_type = boolean_value;
      options = none;
      required = some true;
      show_if = none;
      industry_domain = some healthcare;
    }
    ∷ record {
      code = "Q-HLTH-RESEARCH-CONSENT";
      stage_id = "industry_context";
      stage_label = literal "Industry context — Healthcare";
      stage_order = 2;
      label =
          literal
            "Is that secondary use covered by separate informed consent / a documented lawful basis?";
      help_text =
          literal "Upload research/consent SOPs under Documents when secondary use is enabled.";
      value_type = boolean_value;
      options = none;
      required = some true;
      show_if = some (record { code = "Q-HLTH-RESEARCH"; equals = boolean true });
      industry_domain = some healthcare;
    }
    ∷ record {
      code = "Q-HLTH-ACCESS-CTRL";
      stage_id = "industry_context";
      stage_label = literal "Industry context — Healthcare";
      stage_order = 2;
      label = literal "Do you enforce role-based access and audit logs for clinical data?";
      help_text = literal "Unauthorised staff access is a leading healthcare breach pattern.";
      value_type = boolean_value;
      options = none;
      required = some true;
      show_if = none;
      industry_domain = some healthcare;
    }
    ∷ record {
      code = "Q-HLTH-SHARING";
      stage_id = "industry_context";
      stage_label = literal "Industry context — Healthcare";
      stage_order = 2;
      label =
          literal
            "Do you share data with labs, insurers, pharmacies, or cloud EHR vendors under DPAs?";
      help_text =
          literal "Health ecosystems are processor-heavy — inventory and contract each hop.";
      value_type = boolean_value;
      options = none;
      required = some true;
      show_if = none;
      industry_domain = some healthcare;
    }
    ∷ record {
      code = "Q-HLTH-RETENTION";
      stage_id = "industry_context";
      stage_label = literal "Industry context — Healthcare";
      stage_order = 2;
      label =
          literal
            "Is retention aligned to clinical / legal record-keeping requirements and erasure thereafter?";
      help_text =
          literal "Map medical retention mandates, then erase or anonymise when the hold ends.";
      value_type = boolean_value;
      options = none;
      required = some true;
      show_if = none;
      industry_domain = some healthcare;
    }
    ∷ record {
      code = "Q-HLTH-CHILDREN";
      stage_id = "industry_context";
      stage_label = literal "Industry context — Healthcare";
      stage_order = 2;
      label = literal "Do you treat or process children’s health data?";
      help_text =
          literal
            "Paediatric data may involve parental consent and, for treatment, sector-specific nuances under the Rules.";
      value_type = boolean_value;
      options = none;
      required = some true;
      show_if = none;
      industry_domain = some healthcare;
    }
    ∷ []
