-- ===== src/Assessments/Questionnaire/NoticeConsent.antt =====
-- src/modules/assessments/domain/questionnaire-core.ts: the questions of the stage notice_consent.
use dpdpos_backend.Prelude.{List, [], ◌∷◌, none, some, true, literal}
use dpdpos_backend.Assessments.Questionnaire.Types.{QuestionnaireQuestion, boolean_value}

unfoldable pub notice_consent_questions : List QuestionnaireQuestion
notice_consent_questions =
    record {
      code = "Q-NOTICE-PUBLISHED";
      stage_id = "notice_consent";
      stage_label = literal "Notice & consent";
      stage_order = 3;
      label = literal "Do you publish a privacy notice before collecting personal data?";
      help_text =
          literal
            "Upload your live privacy notice under Documents (type: Privacy notice). DPDP requires clear notice of purpose and rights.";
      value_type = boolean_value;
      options = none;
      required = some true;
      show_if = none;
      industry_domain = none;
    }
    ∷ record {
      code = "Q-NOTICE-PURPOSE";
      stage_id = "notice_consent";
      stage_label = literal "Notice & consent";
      stage_order = 3;
      label =
          literal
            "Does the notice state purposes in clear, itemised language (not only buried T&Cs)?";
      help_text =
          literal
            "Purpose limitation fails when processing purposes are vague or bundled into terms of service.";
      value_type = boolean_value;
      options = none;
      required = some true;
      show_if = none;
      industry_domain = none;
    }
    ∷ record {
      code = "Q-CONSENT-COLLECT";
      stage_id = "notice_consent";
      stage_label = literal "Notice & consent";
      stage_order = 3;
      label = literal "Where consent is the basis, is it collected before processing starts?";
      help_text =
          literal
            "Consent must be free, specific, informed, unconditional and clear. Prefer purpose-linked consent records over bundled T&Cs.";
      value_type = boolean_value;
      options = none;
      required = some true;
      show_if = none;
      industry_domain = none;
    }
    ∷ record {
      code = "Q-CONSENT-WITHDRAW";
      stage_id = "notice_consent";
      stage_label = literal "Notice & consent";
      stage_order = 3;
      label = literal "Can a Data Principal withdraw consent as easily as they gave it?";
      help_text =
          literal
            "Withdrawal must be as easy as giving consent. Upload consent procedures and ensure CLI can find a withdraw endpoint/workflow.";
      value_type = boolean_value;
      options = none;
      required = some true;
      show_if = none;
      industry_domain = none;
    }
    ∷ record {
      code = "Q-CONSENT-MANAGER";
      stage_id = "notice_consent";
      stage_label = literal "Notice & consent";
      stage_order = 3;
      label = literal "Do you use (or plan to use) a registered Consent Manager?";
      help_text =
          literal
            "Consent Managers are optional but help portable, interoperable consent under the DPDP Rules.";
      value_type = boolean_value;
      options = none;
      required = some true;
      show_if = none;
      industry_domain = none;
    }
    ∷ []
