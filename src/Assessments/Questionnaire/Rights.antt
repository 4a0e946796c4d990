-- ===== src/Assessments/Questionnaire/Rights.antt =====
-- src/modules/assessments/domain/questionnaire-core.ts: the questions of the stage rights.
use dpdpos_backend.Prelude.{List, [], ◌∷◌, none, some, true, literal}
use dpdpos_backend.Assessments.Questionnaire.Types.{QuestionnaireQuestion, boolean_value}

unfoldable pub rights_questions : List QuestionnaireQuestion
rights_questions =
    record {
      code = "Q-RIGHTS-ACCESS";
      stage_id = "rights";
      stage_label = literal "Data Principal rights";
      stage_order = 4;
      label = literal "Can individuals request access to their personal data?";
      help_text =
          literal
            "Access requests need a tracked channel and response process. Upload your rights SOP if you have one.";
      value_type = boolean_value;
      options = none;
      required = some true;
      show_if = none;
      industry_domain = none;
    }
    ∷ record {
      code = "Q-RIGHTS-CORRECT";
      stage_id = "rights";
      stage_label = literal "Data Principal rights";
      stage_order = 4;
      label = literal "Can individuals request correction of inaccurate personal data?";
      help_text = literal "Correction is a core Data Principal right under DPDP.";
      value_type = boolean_value;
      options = none;
      required = some true;
      show_if = none;
      industry_domain = none;
    }
    ∷ record {
      code = "Q-RIGHTS-DELETE";
      stage_id = "rights";
      stage_label = literal "Data Principal rights";
      stage_order = 4;
      label = literal "Can individuals request erasure of their personal data?";
      help_text =
          literal
            "Erasure (with lawful exceptions) should be operational, not email-only. CLI looks for deletion/erasure endpoints as technical evidence.";
      value_type = boolean_value;
      options = none;
      required = some true;
      show_if = none;
      industry_domain = none;
    }
    ∷ record {
      code = "Q-RIGHTS-NOMINATION";
      stage_id = "rights";
      stage_label = literal "Data Principal rights";
      stage_order = 4;
      label = literal "Do you support nomination / nominee rights where applicable?";
      help_text =
          literal
            "DPDP provides for nomination in certain circumstances — have an operational path even if rarely used.";
      value_type = boolean_value;
      options = none;
      required = some true;
      show_if = none;
      industry_domain = none;
    }
    ∷ record {
      code = "Q-GRIEVANCE";
      stage_id = "rights";
      stage_label = literal "Data Principal rights";
      stage_order = 4;
      label = literal "Is a grievance redressal contact / process published?";
      help_text =
          literal
            "DPDP requires a readily available means to raise grievances, with timelines for response.";
      value_type = boolean_value;
      options = none;
      required = some true;
      show_if = none;
      industry_domain = none;
    }
    ∷ record {
      code = "Q-GRIEVANCE-SLA";
      stage_id = "rights";
      stage_label = literal "Data Principal rights";
      stage_order = 4;
      label = literal "Do you respond to grievances within 90 days (Rules timeline)?";
      help_text =
          literal
            "The DPDP Rules set a 90-day grievance redressal timeline — track SLA from receipt to closure.";
      value_type = boolean_value;
      options = none;
      required = some true;
      show_if = none;
      industry_domain = none;
    }
    ∷ []
