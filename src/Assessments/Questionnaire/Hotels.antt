-- ===== src/Assessments/Questionnaire/Hotels.antt =====
-- src/modules/assessments/domain/industries/hotels.ts: the questions of the industry hotels.
use dpdpos_backend.Prelude.{List, [], ◌∷◌, none, some, true, literal}
use dpdpos_backend.Assessments.Engine.{boolean}
use dpdpos_backend.Assessments.Questionnaire.Types.{
  QuestionnaireQuestion, boolean_value, string_value, hotels,
}

unfoldable pub hotels_questions : List QuestionnaireQuestion
hotels_questions =
    record {
      code = "Q-HTL-MODEL";
      stage_id = "industry_context";
      stage_label = literal "Industry context — Hotels & Hospitality";
      stage_order = 2;
      label = literal "What is your hospitality operating model?";
      help_text =
          literal
            "Owned, managed, franchise, and OTA-heavy models change who is fiduciary vs processor for guest data.";
      value_type = string_value;
      options =
          some
            ("OWNED" ∷ "MANAGED" ∷ "FRANCHISE" ∷ "OTA_HEAVY" ∷ "SERVICED_APARTMENT" ∷ "OTHER" ∷ []);
      required = some true;
      show_if = none;
      industry_domain = some hotels;
    }
    ∷ record {
      code = "Q-HTL-PMS";
      stage_id = "industry_context";
      stage_label = literal "Industry context — Hotels & Hospitality";
      stage_order = 2;
      label =
          literal "Do you run a PMS / CRS that stores guest profiles, ID proofs, and stay history?";
      help_text =
          literal "PMS data is core personal data — map access, retention, and vendor DPAs.";
      value_type = boolean_value;
      options = none;
      required = some true;
      show_if = none;
      industry_domain = some hotels;
    }
    ∷ record {
      code = "Q-HTL-ID-PROOF";
      stage_id = "industry_context";
      stage_label = literal "Industry context — Hotels & Hospitality";
      stage_order = 2;
      label =
          literal
            "Are government ID scans / passport copies collected at check-in retained only as long as required?";
      help_text =
          literal
            "ID copies are high-sensitivity; minimise retention after statutory / security holds end.";
      value_type = boolean_value;
      options = none;
      required = some true;
      show_if = none;
      industry_domain = some hotels;
    }
    ∷ record {
      code = "Q-HTL-OTA";
      stage_id = "industry_context";
      stage_label = literal "Industry context — Hotels & Hospitality";
      stage_order = 2;
      label =
          literal
            "Do OTAs / channel managers / payment gateways process guest data under contracts?";
      help_text = literal "Booking ecosystems are processor-heavy — inventory each channel.";
      value_type = boolean_value;
      options = none;
      required = some true;
      show_if = none;
      industry_domain = some hotels;
    }
    ∷ record {
      code = "Q-HTL-OTA-DPA";
      stage_id = "industry_context";
      stage_label = literal "Industry context — Hotels & Hospitality";
      stage_order = 2;
      label =
          literal
            "Are those channel / payment relationships covered by DPAs or equivalent privacy terms?";
      help_text = literal "Upload sample OTA/channel agreements under Vendor documents.";
      value_type = boolean_value;
      options = none;
      required = some true;
      show_if = some (record { code = "Q-HTL-OTA"; equals = boolean true });
      industry_domain = some hotels;
    }
    ∷ record {
      code = "Q-HTL-MARKETING";
      stage_id = "industry_context";
      stage_label = literal "Industry context — Hotels & Hospitality";
      stage_order = 2;
      label =
          literal
            "Is guest marketing (email/SMS/loyalty) only sent with purpose-specific consent / preferences?";
      help_text = literal "Stay confirmation is not blanket consent for promotional offers.";
      value_type = boolean_value;
      options = none;
      required = some true;
      show_if = none;
      industry_domain = some hotels;
    }
    ∷ record {
      code = "Q-HTL-CCTV";
      stage_id = "industry_context";
      stage_label = literal "Industry context — Hotels & Hospitality";
      stage_order = 2;
      label = literal "Is guest-area CCTV disclosed (notice) with purpose-limited retention?";
      help_text =
          literal
            "Lobby/corridor CCTV is personal data processing — post notice and define retention.";
      value_type = boolean_value;
      options = none;
      required = some true;
      show_if = none;
      industry_domain = some hotels;
    }
    ∷ record {
      code = "Q-HTL-CHILDREN";
      stage_id = "industry_context";
      stage_label = literal "Industry context — Hotels & Hospitality";
      stage_order = 2;
      label =
          literal
            "Do you knowingly process children’s guest data (family rooms, kids clubs, school groups)?";
      help_text =
          literal
            "Child guest data may require parental consent and tighter marketing limits under Section 9.";
      value_type = boolean_value;
      options = none;
      required = some true;
      show_if = none;
      industry_domain = some hotels;
    }
    ∷ record {
      code = "Q-HTL-RIGHTS";
      stage_id = "industry_context";
      stage_label = literal "Industry context — Hotels & Hospitality";
      stage_order = 2;
      label = literal "Can you fulfil access / erasure across PMS, loyalty, and OTA-held copies?";
      help_text =
          literal
            "Guest rights workflows must reach channel partners, not only the front-desk profile.";
      value_type = boolean_value;
      options = none;
      required = some true;
      show_if = none;
      industry_domain = some hotels;
    }
    ∷ []
