-- ===== src/Assessments/Questionnaire/RetentionBreach.antt =====
-- src/modules/assessments/domain/questionnaire-core.ts: the questions of the stage retention_breach.
use dpdpos_backend.Prelude.{List, [], ◌∷◌, none, some, true, literal}
use dpdpos_backend.Assessments.Questionnaire.Types.{QuestionnaireQuestion, boolean_value}

unfoldable pub retention_breach_questions : List QuestionnaireQuestion
retention_breach_questions =
    record {
      code = "Q-RETENTION";
      stage_id = "retention_breach";
      stage_label = literal "Retention & breach readiness";
      stage_order = 6;
      label = literal "Is a retention schedule defined for personal data (and logs)?";
      help_text =
          literal
            "Upload your retention schedule. CLI also looks for retention settings in code/config.";
      value_type = boolean_value;
      options = none;
      required = some true;
      show_if = none;
      industry_domain = none;
    }
    ∷ record {
      code = "Q-RETENTION-ERASURE";
      stage_id = "retention_breach";
      stage_label = literal "Retention & breach readiness";
      stage_order = 6;
      label =
          literal
            "Is there an automated or operational erasure when purpose ends / retention expires?";
      help_text =
          literal
            "A schedule without deletion workflows leaves data after purpose fulfilment — a common DPDP gap.";
      value_type = boolean_value;
      options = none;
      required = some true;
      show_if = none;
      industry_domain = none;
    }
    ∷ record {
      code = "Q-BREACH-PROCESS";
      stage_id = "retention_breach";
      stage_label = literal "Retention & breach readiness";
      stage_order = 6;
      label = literal "Do you have a documented personal-data breach response process?";
      help_text =
          literal
            "Cover detection, internal escalation, Board notification path, and affected-principal communication. Upload the incident/breach policy.";
      value_type = boolean_value;
      options = none;
      required = some true;
      show_if = none;
      industry_domain = none;
    }
    ∷ record {
      code = "Q-BREACH-NOTIFY";
      stage_id = "retention_breach";
      stage_label = literal "Retention & breach readiness";
      stage_order = 6;
      label =
          literal
            "Does the process include notifying the Board and affected principals as required?";
      help_text =
          literal
            "Breach duties include Data Protection Board notification and, where required, informing Data Principals.";
      value_type = boolean_value;
      options = none;
      required = some true;
      show_if = none;
      industry_domain = none;
    }
    ∷ record {
      code = "Q-LOG-RETENTION";
      stage_id = "retention_breach";
      stage_label = literal "Retention & breach readiness";
      stage_order = 6;
      label =
          literal
            "Are security / processing logs retained as required for oversight (Rules: ~1 year where applicable)?";
      help_text =
          literal
            "Log retention supports investigation and regulatory oversight without indefinite personal-data hoarding.";
      value_type = boolean_value;
      options = none;
      required = some true;
      show_if = none;
      industry_domain = none;
    }
    ∷ []
