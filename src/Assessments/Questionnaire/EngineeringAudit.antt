-- ===== src/Assessments/Questionnaire/EngineeringAudit.antt =====
-- src/modules/assessments/domain/questionnaire-core.ts: the questions of the stage engineering_audit.
use dpdpos_backend.Prelude.{List, [], ◌∷◌, none, some, true, literal}
use dpdpos_backend.Assessments.Questionnaire.Types.{
  QuestionnaireQuestion, boolean_value, string_value,
}

unfoldable pub engineering_audit_questions : List QuestionnaireQuestion
engineering_audit_questions =
    record {
      code = "Q-AUDIT-NOTICE-PUBLIC";
      stage_id = "engineering_audit";
      stage_label = literal "Engineering audit";
      stage_order = 0;
      label =
          literal
            "Is a privacy notice published on public surfaces (website/app) stating why data is collected?";
      help_text =
          literal "Engineering audit — auditor’s eyes on public claims, not only an uploaded PDF.";
      value_type = boolean_value;
      options = none;
      required = some true;
      show_if = none;
      industry_domain = none;
    }
    ∷ record {
      code = "Q-AUDIT-CONTACT-CHANNEL";
      stage_id = "engineering_audit";
      stage_label = literal "Engineering audit";
      stage_order = 0;
      label =
          literal
            "Is a clear contact / grievance channel published for data principal rights requests?";
      help_text = literal "Visitors must know where to ask for access, correction, or erasure.";
      value_type = boolean_value;
      options = none;
      required = some true;
      show_if = none;
      industry_domain = none;
    }
    ∷ record {
      code = "Q-AUDIT-HOSTING-REGION";
      stage_id = "engineering_audit";
      stage_label = literal "Engineering audit";
      stage_order = 0;
      label = literal "Where is primary personal data hosted?";
      help_text = literal "Maps India vs overseas hosting for transfer and localisation risk.";
      value_type = string_value;
      options = some ("INDIA_ONLY" ∷ "MULTI_REGION" ∷ "OUTSIDE_INDIA" ∷ "UNKNOWN" ∷ []);
      required = some true;
      show_if = none;
      industry_domain = none;
    }
    ∷ record {
      code = "Q-AUDIT-INFORMAL-CHANNELS";
      stage_id = "engineering_audit";
      stage_label = literal "Engineering audit";
      stage_order = 0;
      label =
          literal
            "Is personal data shared via informal channels (WhatsApp, personal email, unmanaged sheets)?";
      help_text =
          literal
            "Informal channels are a common engineering-audit finding and raise processor/access risk.";
      value_type = boolean_value;
      options = none;
      required = some true;
      show_if = none;
      industry_domain = none;
    }
    ∷ record {
      code = "Q-AUDIT-SYSTEMS-MAPPED";
      stage_id = "engineering_audit";
      stage_label = literal "Engineering audit";
      stage_order = 0;
      label =
          literal
            "Have you mapped internal systems that store personal data (CRM, apps, DBs, vendors)?";
      help_text =
          literal "System discovery is the first step before Trace-like continuous controls.";
      value_type = boolean_value;
      options = none;
      required = some true;
      show_if = none;
      industry_domain = none;
    }
    ∷ []
