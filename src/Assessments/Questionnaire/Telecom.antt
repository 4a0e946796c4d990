-- ===== src/Assessments/Questionnaire/Telecom.antt =====
-- src/modules/assessments/domain/industries/telecom.ts: the questions of the industry telecom.
use dpdpos_backend.Prelude.{List, [], ◌∷◌, none, some, true, literal}
use dpdpos_backend.Assessments.Questionnaire.Types.{
  QuestionnaireQuestion, boolean_value, string_value, telecom,
}

unfoldable pub telecom_questions : List QuestionnaireQuestion
telecom_questions =
    record {
      code = "Q-TEL-LICENSE";
      stage_id = "industry_context";
      stage_label = literal "Industry context — Telecom";
      stage_order = 2;
      label = literal "What best describes your communications business?";
      help_text =
          literal "Licensed telcos/ISPs face TRAI and licensing overlays; OTT platforms differ.";
      value_type = string_value;
      options = some ("TELCO" ∷ "ISP" ∷ "OTT" ∷ "OTHER" ∷ []);
      required = some true;
      show_if = none;
      industry_domain = some telecom;
    }
    ∷ record {
      code = "Q-TEL-LOCATION";
      stage_id = "industry_context";
      stage_label = literal "Industry context — Telecom";
      stage_order = 2;
      label = literal "Do you process precise location or mobility data?";
      help_text =
          literal
            "Location data is high-sensitivity — minimise collection and disclose purposes clearly.";
      value_type = boolean_value;
      options = none;
      required = some true;
      show_if = none;
      industry_domain = some telecom;
    }
    ∷ record {
      code = "Q-TEL-CDR";
      stage_id = "industry_context";
      stage_label = literal "Industry context — Telecom";
      stage_order = 2;
      label = literal "Do you retain call or session detail records (CDRs / SDRs)?";
      help_text =
          literal "Map CDR retention to licensing/lawful requirements, then erase when holds end.";
      value_type = boolean_value;
      options = none;
      required = some true;
      show_if = none;
      industry_domain = some telecom;
    }
    ∷ record {
      code = "Q-TEL-LAWFUL";
      stage_id = "industry_context";
      stage_label = literal "Industry context — Telecom";
      stage_order = 2;
      label =
          literal
            "Is lawful interception / LEA disclosure separated from commercial use of subscriber data?";
      help_text =
          literal "Keep LEA processes purpose-limited and out of marketing/analytics pipelines.";
      value_type = boolean_value;
      options = none;
      required = some true;
      show_if = none;
      industry_domain = some telecom;
    }
    ∷ record {
      code = "Q-TEL-TRAI";
      stage_id = "industry_context";
      stage_label = literal "Industry context — Telecom";
      stage_order = 2;
      label =
          literal "Is commercial communication consent aligned with TRAI / preference frameworks?";
      help_text = literal "DND/preference compliance often overlaps marketing consent under DPDP.";
      value_type = boolean_value;
      options = none;
      required = some true;
      show_if = none;
      industry_domain = some telecom;
    }
    ∷ record {
      code = "Q-TEL-PARTNERS";
      stage_id = "industry_context";
      stage_label = literal "Industry context — Telecom";
      stage_order = 2;
      label =
          literal
            "Do you share subscriber data with content, OTT, or partner services under contracts?";
      help_text = literal "Partner ecosystems need DPAs and purpose limitation for each share.";
      value_type = boolean_value;
      options = none;
      required = some true;
      show_if = none;
      industry_domain = some telecom;
    }
    ∷ record {
      code = "Q-TEL-BREACH";
      stage_id = "industry_context";
      stage_label = literal "Industry context — Telecom";
      stage_order = 2;
      label =
          literal
            "Is your breach playbook sized for mass-subscriber incidents (comms + Board notification)?";
      help_text =
          literal "Telecom scale incidents need pre-drafted communications and regulator paths.";
      value_type = boolean_value;
      options = none;
      required = some true;
      show_if = none;
      industry_domain = some telecom;
    }
    ∷ record {
      code = "Q-TEL-SDF";
      stage_id = "industry_context";
      stage_label = literal "Industry context — Telecom";
      stage_order = 2;
      label = literal "Given volume/sensitivity, have you formally assessed SDF likelihood?";
      help_text = literal "Large subscriber bases often push telecom entities toward SDF duties.";
      value_type = boolean_value;
      options = none;
      required = some true;
      show_if = none;
      industry_domain = some telecom;
    }
    ∷ record {
      code = "Q-TEL-CHILDREN";
      stage_id = "industry_context";
      stage_label = literal "Industry context — Telecom";
      stage_order = 2;
      label = literal "Do you offer child-oriented plans or knowingly register minor subscribers?";
      help_text =
          literal "Minor subscribers trigger children’s-data consent and tracking restrictions.";
      value_type = boolean_value;
      options = none;
      required = some true;
      show_if = none;
      industry_domain = some telecom;
    }
    ∷ []
