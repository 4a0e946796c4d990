-- ===== src/Assessments/Questionnaire/EducationEdtech.antt =====
-- src/modules/assessments/domain/industries/education-edtech.ts: the questions of the industry education_edtech.
use dpdpos_backend.Prelude.{List, [], ◌∷◌, none, some, true, literal}
use dpdpos_backend.Assessments.Questionnaire.Types.{
  QuestionnaireQuestion, boolean_value, string_value, education_edtech,
}

unfoldable pub education_edtech_questions : List QuestionnaireQuestion
education_edtech_questions =
    record {
      code = "Q-EDU-MODEL";
      stage_id = "industry_context";
      stage_label = literal "Industry context — Education & EdTech";
      stage_order = 2;
      label = literal "What is your education model?";
      help_text =
          literal
            "Schools vs consumer EdTech change who collects parental consent and how data is shared.";
      value_type = string_value;
      options =
          some ("SCHOOL" ∷ "UNIVERSITY" ∷ "EDTECH_B2C" ∷ "EDTECH_B2B" ∷ "COACHING" ∷ "OTHER" ∷ []);
      required = some true;
      show_if = none;
      industry_domain = some education_edtech;
    }
    ∷ record {
      code = "Q-EDU-UNDER18";
      stage_id = "industry_context";
      stage_label = literal "Industry context — Education & EdTech";
      stage_order = 2;
      label = literal "Are the majority of end users under 18?";
      help_text = literal "Child-majority platforms face the highest Section 9 operational burden.";
      value_type = boolean_value;
      options = none;
      required = some true;
      show_if = none;
      industry_domain = some education_edtech;
    }
    ∷ record {
      code = "Q-EDU-PARENTAL";
      stage_id = "industry_context";
      stage_label = literal "Industry context — Education & EdTech";
      stage_order = 2;
      label =
          literal
            "Is verifiable parental/guardian consent obtained before processing children’s data?";
      help_text =
          literal "A checkbox saying “my parent agrees” is not enough — use a verifiable method.";
      value_type = boolean_value;
      options = none;
      required = some true;
      show_if = none;
      industry_domain = some education_edtech;
    }
    ∷ record {
      code = "Q-EDU-VERIFY-METHOD";
      stage_id = "industry_context";
      stage_label = literal "Industry context — Education & EdTech";
      stage_order = 2;
      label = literal "Which parental consent verification method do you use?";
      help_text =
          literal
            "Rules-oriented methods include DigiLocker tokens, government ID checks, or parent OTP.";
      value_type = string_value;
      options =
          some ("DIGILOCKER" ∷ "GOV_ID" ∷ "PARENT_OTP" ∷ "SCHOOL_ATTEST" ∷ "OTHER" ∷ "NONE" ∷ []);
      required = some true;
      show_if = none;
      industry_domain = some education_edtech;
    }
    ∷ record {
      code = "Q-EDU-NO-TRACK";
      stage_id = "industry_context";
      stage_label = literal "Industry context — Education & EdTech";
      stage_order = 2;
      label =
          literal
            "Is tracking, behavioural monitoring, or targeted advertising disabled for child users?";
      help_text = literal "DPDP prohibits tracking and targeted ads directed at children.";
      value_type = boolean_value;
      options = none;
      required = some true;
      show_if = none;
      industry_domain = some education_edtech;
    }
    ∷ record {
      code = "Q-EDU-SCHOOL-SHARE";
      stage_id = "industry_context";
      stage_label = literal "Industry context — Education & EdTech";
      stage_order = 2;
      label =
          literal
            "Is student data shared with schools, exam boards, or content partners under agreements?";
      help_text =
          literal "Cover each educational partner in your processor inventory and contracts.";
      value_type = boolean_value;
      options = none;
      required = some true;
      show_if = none;
      industry_domain = some education_edtech;
    }
    ∷ record {
      code = "Q-EDU-RETENTION";
      stage_id = "industry_context";
      stage_label = literal "Industry context — Education & EdTech";
      stage_order = 2;
      label =
          literal
            "Is student data deleted or anonymised after the course/cohort purpose ends (plus a lawful buffer)?";
      help_text =
          literal "Purpose fulfilment for education data should trigger erasure or anonymisation.";
      value_type = boolean_value;
      options = none;
      required = some true;
      show_if = none;
      industry_domain = some education_edtech;
    }
    ∷ record {
      code = "Q-EDU-ACCESS";
      stage_id = "industry_context";
      stage_label = literal "Industry context — Education & EdTech";
      stage_order = 2;
      label = literal "Can parents/guardians exercise access or erasure on behalf of the child?";
      help_text = literal "Rights UX for minors must work through a verified guardian channel.";
      value_type = boolean_value;
      options = none;
      required = some true;
      show_if = none;
      industry_domain = some education_edtech;
    }
    ∷ record {
      code = "Q-EDU-BIOMETRIC";
      stage_id = "industry_context";
      stage_label = literal "Industry context — Education & EdTech";
      stage_order = 2;
      label = literal "Do you use biometric, proctoring, or facial data?";
      help_text =
          literal
            "Proctoring biometrics are high-sensitivity — minimise and justify clearly in notice.";
      value_type = boolean_value;
      options = none;
      required = some true;
      show_if = none;
      industry_domain = some education_edtech;
    }
    ∷ []
