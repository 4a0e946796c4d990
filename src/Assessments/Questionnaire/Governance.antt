-- ===== src/Assessments/Questionnaire/Governance.antt =====
-- src/modules/assessments/domain/questionnaire-core.ts: the questions of the stage governance.
use dpdpos_backend.Prelude.{List, [], ◌∷◌, none, some, true, literal}
use dpdpos_backend.Assessments.Engine.{boolean}
use dpdpos_backend.Assessments.Questionnaire.Types.{QuestionnaireQuestion, boolean_value}

unfoldable pub governance_questions : List QuestionnaireQuestion
governance_questions =
    record {
      code = "Q-PRIVACY-OWNER";
      stage_id = "governance";
      stage_label = literal "Governance";
      stage_order = 7;
      label = literal "Is a named privacy / compliance owner accountable for DPDP?";
      help_text = literal "Accountability needs a human owner even if you are not an SDF.";
      value_type = boolean_value;
      options = none;
      required = some true;
      show_if = none;
      industry_domain = none;
    }
    ∷ record {
      code = "Q-TRAINING";
      stage_id = "governance";
      stage_label = literal "Governance";
      stage_order = 7;
      label = literal "Do staff who handle personal data receive privacy training?";
      help_text = literal "Training reduces operational breach and rights-handling failures.";
      value_type = boolean_value;
      options = none;
      required = some true;
      show_if = none;
      industry_domain = none;
    }
    ∷ record {
      code = "Q-SDF";
      stage_id = "governance";
      stage_label = literal "Governance";
      stage_order = 7;
      label = literal "Are you (or likely to be classified as) a Significant Data Fiduciary?";
      help_text =
          literal
            "SDFs face extra duties (DPO, audits, DPIA). Answer based on volume, sensitivity and risk — not a legal determination.";
      value_type = boolean_value;
      options = none;
      required = some true;
      show_if = none;
      industry_domain = none;
    }
    ∷ record {
      code = "Q-DPO";
      stage_id = "governance";
      stage_label = literal "Governance";
      stage_order = 7;
      label = literal "Have you appointed a Data Protection Officer?";
      help_text = literal "Required for SDFs; strongly recommended otherwise if scale is high.";
      value_type = boolean_value;
      options = none;
      required = some true;
      show_if = some (record { code = "Q-SDF"; equals = boolean true });
      industry_domain = none;
    }
    ∷ record {
      code = "Q-DPIA";
      stage_id = "governance";
      stage_label = literal "Governance";
      stage_order = 7;
      label =
          literal
            "Do you conduct data protection impact / risk assessments for high-risk processing?";
      help_text = literal "SDF-oriented duty; also good practice for high-risk categories.";
      value_type = boolean_value;
      options = none;
      required = some true;
      show_if = some (record { code = "Q-SDF"; equals = boolean true });
      industry_domain = none;
    }
    ∷ record {
      code = "Q-AUDIT";
      stage_id = "governance";
      stage_label = literal "Governance";
      stage_order = 7;
      label =
          literal "Have you had an independent or internal privacy audit in the last 12 months?";
      help_text = literal "Audits evidence ongoing accountability for SDFs and mature programmes.";
      value_type = boolean_value;
      options = none;
      required = some true;
      show_if = some (record { code = "Q-SDF"; equals = boolean true });
      industry_domain = none;
    }
    ∷ []
