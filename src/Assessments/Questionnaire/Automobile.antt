-- ===== src/Assessments/Questionnaire/Automobile.antt =====
-- src/modules/assessments/domain/industries/automobile.ts: the questions of the industry automobile.
use dpdpos_backend.Prelude.{List, [], ◌∷◌, none, some, true, literal}
use dpdpos_backend.Assessments.Engine.{boolean}
use dpdpos_backend.Assessments.Questionnaire.Types.{
  QuestionnaireQuestion, boolean_value, string_value, automobile,
}

unfoldable pub automobile_questions : List QuestionnaireQuestion
automobile_questions =
    record {
      code = "Q-AUTO-SEGMENT";
      stage_id = "industry_context";
      stage_label = literal "Industry context — Automobile & Automotive";
      stage_order = 2;
      label = literal "What is your primary automotive segment?";
      help_text =
          literal
            "OEM, dealership, fleet, and connected-vehicle platforms process different mixes of customer, driver, and telemetry data.";
      value_type = string_value;
      options =
          some ("OEM" ∷ "DEALERSHIP" ∷ "FLEET" ∷ "EV_CONNECTED" ∷ "AFTERMARKET" ∷ "OTHER" ∷ []);
      required = some true;
      show_if = none;
      industry_domain = some automobile;
    }
    ∷ record {
      code = "Q-AUTO-CONNECTED";
      stage_id = "industry_context";
      stage_label = literal "Industry context — Automobile & Automotive";
      stage_order = 2;
      label =
          literal
            "Do vehicles / apps collect connected-car telemetry (location, VIN-linked usage, diagnostics)?";
      help_text =
          literal
            "Telemetry often qualifies as personal data when linkable to a customer or VIN — map purposes and retention.";
      value_type = boolean_value;
      options = none;
      required = some true;
      show_if = none;
      industry_domain = some automobile;
    }
    ∷ record {
      code = "Q-AUTO-TELEMETRY-NOTICE";
      stage_id = "industry_context";
      stage_label = literal "Industry context — Automobile & Automotive";
      stage_order = 2;
      label =
          literal
            "Is in-vehicle / app notice clear about what telemetry is collected and for which purposes?";
      help_text =
          literal
            "Upload connected-car privacy notice / owner manual excerpts under Documents when telemetry is collected.";
      value_type = boolean_value;
      options = none;
      required = some true;
      show_if = some (record { code = "Q-AUTO-CONNECTED"; equals = boolean true });
      industry_domain = some automobile;
    }
    ∷ record {
      code = "Q-AUTO-BIOMETRIC";
      stage_id = "industry_context";
      stage_label = literal "Industry context — Automobile & Automotive";
      stage_order = 2;
      label =
          literal
            "Do you process biometrics (driver face/voice, fingerprint unlock, cabin cameras)?";
      help_text =
          literal
            "Biometric and cabin-camera data needs heightened safeguards and purpose limitation under DPDP.";
      value_type = boolean_value;
      options = none;
      required = some true;
      show_if = none;
      industry_domain = some automobile;
    }
    ∷ record {
      code = "Q-AUTO-DEALER-CRM";
      stage_id = "industry_context";
      stage_label = literal "Industry context — Automobile & Automotive";
      stage_order = 2;
      label =
          literal
            "Do dealerships / service centres share customer CRM data with the OEM or group companies?";
      help_text =
          literal
            "Multi-party sales/service networks need processor terms and purpose-bound sharing.";
      value_type = boolean_value;
      options = none;
      required = some true;
      show_if = none;
      industry_domain = some automobile;
    }
    ∷ record {
      code = "Q-AUTO-DEALER-DPA";
      stage_id = "industry_context";
      stage_label = literal "Industry context — Automobile & Automotive";
      stage_order = 2;
      label = literal "Are those shares covered by contracts / DPAs with purpose limits?";
      help_text = literal "Upload sample dealer/OEM data-sharing terms under Vendor documents.";
      value_type = boolean_value;
      options = none;
      required = some true;
      show_if = some (record { code = "Q-AUTO-DEALER-CRM"; equals = boolean true });
      industry_domain = some automobile;
    }
    ∷ record {
      code = "Q-AUTO-MARKETING";
      stage_id = "industry_context";
      stage_label = literal "Industry context — Automobile & Automotive";
      stage_order = 2;
      label =
          literal
            "Is post-sale marketing (service reminders, finance offers) sent only with purpose-specific consent / preferences?";
      help_text =
          literal
            "Bundling loan/insurance offers into a single silent consent fails DPDP consent quality tests.";
      value_type = boolean_value;
      options = none;
      required = some true;
      show_if = none;
      industry_domain = some automobile;
    }
    ∷ record {
      code = "Q-AUTO-RETENTION";
      stage_id = "industry_context";
      stage_label = literal "Industry context — Automobile & Automotive";
      stage_order = 2;
      label =
          literal
            "Is retention defined for vehicle history, warranty, and telemetry (then erasure / anonymisation)?";
      help_text =
          literal
            "Map warranty and regulatory holds, then delete or anonymise when the purpose ends.";
      value_type = boolean_value;
      options = none;
      required = some true;
      show_if = none;
      industry_domain = some automobile;
    }
    ∷ record {
      code = "Q-AUTO-RIGHTS";
      stage_id = "industry_context";
      stage_label = literal "Industry context — Automobile & Automotive";
      stage_order = 2;
      label =
          literal
            "Can you fulfil access / erasure for a customer across CRM, connected apps, and dealer systems?";
      help_text =
          literal
            "Rights must reach downstream dealer and telematics copies, not only the central profile.";
      value_type = boolean_value;
      options = none;
      required = some true;
      show_if = none;
      industry_domain = some automobile;
    }
    ∷ []
