-- ===== src/Assessments/Questionnaire/FoodManufacturing.antt =====
-- src/modules/assessments/domain/industries/food-manufacturing.ts: the questions of the industry food_manufacturing.
use dpdpos_backend.Prelude.{List, [], ◌∷◌, none, some, true, literal}
use dpdpos_backend.Assessments.Engine.{boolean}
use dpdpos_backend.Assessments.Questionnaire.Types.{
  QuestionnaireQuestion, boolean_value, string_value, food_manufacturing,
}

unfoldable pub food_manufacturing_questions : List QuestionnaireQuestion
food_manufacturing_questions =
    record {
      code = "Q-FOOD-OPS";
      stage_id = "industry_context";
      stage_label = literal "Industry context — Food Manufacturing";
      stage_order = 2;
      label = literal "What best describes your food operations?";
      help_text =
          literal
            "Manufacturing, processing, cold-chain, and B2B distribution each create different personal-data touchpoints (workers, buyers, logistics).";
      value_type = string_value;
      options = some (
          "MANUFACTURING" ∷ "PROCESSING" ∷ "COLD_CHAIN" ∷ "B2B_DISTRIBUTION" ∷ "PRIVATE_LABEL"
          ∷ "OTHER" ∷ []);
      required = some true;
      show_if = none;
      industry_domain = some food_manufacturing;
    }
    ∷ record {
      code = "Q-FOOD-WORKFORCE";
      stage_id = "industry_context";
      stage_label = literal "Industry context — Food Manufacturing";
      stage_order = 2;
      label =
          literal
            "Do you process plant / contract-worker data (attendance, biometrics, contractor rolls)?";
      help_text =
          literal
            "Factory HR and contractor data are fiduciary processing — often overlooked vs customer CRM.";
      value_type = boolean_value;
      options = none;
      required = some true;
      show_if = none;
      industry_domain = some food_manufacturing;
    }
    ∷ record {
      code = "Q-FOOD-BIOMETRIC";
      stage_id = "industry_context";
      stage_label = literal "Industry context — Food Manufacturing";
      stage_order = 2;
      label = literal "Is biometric attendance or access control used at plants / warehouses?";
      help_text =
          literal
            "Biometric workforce systems need notice, purpose limits, and strong access controls.";
      value_type = boolean_value;
      options = none;
      required = some true;
      show_if = some (record { code = "Q-FOOD-WORKFORCE"; equals = boolean true });
      industry_domain = some food_manufacturing;
    }
    ∷ record {
      code = "Q-FOOD-TRACEABILITY";
      stage_id = "industry_context";
      stage_label = literal "Industry context — Food Manufacturing";
      stage_order = 2;
      label =
          literal
            "Does food-safety / recall traceability link batches to customer or distributor identities?";
      help_text =
          literal
            "Traceability is legitimate; still minimise personal data and define post-recall retention.";
      value_type = boolean_value;
      options = none;
      required = some true;
      show_if = none;
      industry_domain = some food_manufacturing;
    }
    ∷ record {
      code = "Q-FOOD-QA-LABS";
      stage_id = "industry_context";
      stage_label = literal "Industry context — Food Manufacturing";
      stage_order = 2;
      label =
          literal
            "Do external labs, auditors, or certification bodies receive personal data under contracts?";
      help_text =
          literal
            "QA and certification partners are processors when they handle identifiable contacts or samples linked to people.";
      value_type = boolean_value;
      options = none;
      required = some true;
      show_if = none;
      industry_domain = some food_manufacturing;
    }
    ∷ record {
      code = "Q-FOOD-QA-DPA";
      stage_id = "industry_context";
      stage_label = literal "Industry context — Food Manufacturing";
      stage_order = 2;
      label = literal "Are those lab / auditor relationships covered by DPAs or equivalent terms?";
      help_text = literal "Upload sample lab/auditor agreements under Vendor documents.";
      value_type = boolean_value;
      options = none;
      required = some true;
      show_if = some (record { code = "Q-FOOD-QA-LABS"; equals = boolean true });
      industry_domain = some food_manufacturing;
    }
    ∷ record {
      code = "Q-FOOD-LOGISTICS";
      stage_id = "industry_context";
      stage_label = literal "Industry context — Food Manufacturing";
      stage_order = 2;
      label =
          literal
            "Do logistics / cold-chain partners receive delivery contact details under purpose limits?";
      help_text =
          literal "Distributors and transporters often see phone/address — inventory each hop.";
      value_type = boolean_value;
      options = none;
      required = some true;
      show_if = none;
      industry_domain = some food_manufacturing;
    }
    ∷ record {
      code = "Q-FOOD-CCTV";
      stage_id = "industry_context";
      stage_label = literal "Industry context — Food Manufacturing";
      stage_order = 2;
      label =
          literal
            "Is plant / warehouse CCTV notice posted and retention limited to security purposes?";
      help_text =
          literal
            "Workplace CCTV is personal data processing — publish notice and a retention schedule.";
      value_type = boolean_value;
      options = none;
      required = some true;
      show_if = none;
      industry_domain = some food_manufacturing;
    }
    ∷ record {
      code = "Q-FOOD-RETENTION";
      stage_id = "industry_context";
      stage_label = literal "Industry context — Food Manufacturing";
      stage_order = 2;
      label =
          literal
            "Is retention mapped for quality records, complaints, and buyer contacts (then erasure)?";
      help_text =
          literal
            "Food-safety record holds and marketing contacts must not share one indefinite retention bucket.";
      value_type = boolean_value;
      options = none;
      required = some true;
      show_if = none;
      industry_domain = some food_manufacturing;
    }
    ∷ []
