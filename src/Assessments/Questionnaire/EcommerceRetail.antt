-- ===== src/Assessments/Questionnaire/EcommerceRetail.antt =====
-- src/modules/assessments/domain/industries/ecommerce-retail.ts: the questions of the industry ecommerce_retail.
use dpdpos_backend.Prelude.{List, [], ◌∷◌, none, some, true, literal}
use dpdpos_backend.Assessments.Engine.{boolean}
use dpdpos_backend.Assessments.Questionnaire.Types.{
  QuestionnaireQuestion, boolean_value, string_value, ecommerce_retail,
}

unfoldable pub ecommerce_retail_questions : List QuestionnaireQuestion
ecommerce_retail_questions =
    record {
      code = "Q-ECOM-MODEL";
      stage_id = "industry_context";
      stage_label = literal "Industry context — E-commerce & Retail";
      stage_order = 2;
      label = literal "What is your commerce model?";
      help_text =
          literal
            "Marketplaces add seller/processor complexity; D2C is simpler but still tracks behaviour.";
      value_type = string_value;
      options = some ("MARKETPLACE" ∷ "INVENTORY" ∷ "D2C" ∷ "OMNI" ∷ "OTHER" ∷ []);
      required = some true;
      show_if = none;
      industry_domain = some ecommerce_retail;
    }
    ∷ record {
      code = "Q-ECOM-TRACKING";
      stage_id = "industry_context";
      stage_label = literal "Industry context — E-commerce & Retail";
      stage_order = 2;
      label =
          literal "Do you use cookies, SDKs, or behavioural tracking for ads or personalisation?";
      help_text =
          literal
            "Tracking needs purpose-specific notice/consent — not a silent analytics default.";
      value_type = boolean_value;
      options = none;
      required = some true;
      show_if = none;
      industry_domain = some ecommerce_retail;
    }
    ∷ record {
      code = "Q-ECOM-MARKETING";
      stage_id = "industry_context";
      stage_label = literal "Industry context — E-commerce & Retail";
      stage_order = 2;
      label =
          literal
            "Is marketing (SMS/email/push) only sent with purpose-specific consent / a preference centre?";
      help_text =
          literal "Align with DPDP consent quality and commercial-communication preference norms.";
      value_type = boolean_value;
      options = none;
      required = some true;
      show_if = none;
      industry_domain = some ecommerce_retail;
    }
    ∷ record {
      code = "Q-ECOM-SELLERS";
      stage_id = "industry_context";
      stage_label = literal "Industry context — E-commerce & Retail";
      stage_order = 2;
      label = literal "Do marketplace sellers or delivery partners process buyer personal data?";
      help_text =
          literal
            "Logistics and sellers often receive name, phone, and address — treat as processors.";
      value_type = boolean_value;
      options = none;
      required = some true;
      show_if = none;
      industry_domain = some ecommerce_retail;
    }
    ∷ record {
      code = "Q-ECOM-SELLER-DPA";
      stage_id = "industry_context";
      stage_label = literal "Industry context — E-commerce & Retail";
      stage_order = 2;
      label = literal "Do contractual privacy terms cover those sellers / delivery partners?";
      help_text = literal "Upload sample marketplace/logistics terms under Vendor DPA documents.";
      value_type = boolean_value;
      options = none;
      required = some true;
      show_if = some (record { code = "Q-ECOM-SELLERS"; equals = boolean true });
      industry_domain = some ecommerce_retail;
    }
    ∷ record {
      code = "Q-ECOM-PAYMENTS";
      stage_id = "industry_context";
      stage_label = literal "Industry context — E-commerce & Retail";
      stage_order = 2;
      label =
          literal
            "Is payment data handled via PCI-aware gateways (not stored unnecessarily on your systems)?";
      help_text =
          literal "Minimisation: avoid storing full PAN/CVV; prefer tokenised gateway flows.";
      value_type = boolean_value;
      options = none;
      required = some true;
      show_if = none;
      industry_domain = some ecommerce_retail;
    }
    ∷ record {
      code = "Q-ECOM-RETENTION";
      stage_id = "industry_context";
      stage_label = literal "Industry context — E-commerce & Retail";
      stage_order = 2;
      label =
          literal
            "Is an inactive account / order-data deletion policy defined (with pre-erasure notice if you are a large platform)?";
      help_text =
          literal
            "Large e-commerce entities may face specific inactivity retention ceilings under the Rules.";
      value_type = boolean_value;
      options = none;
      required = some true;
      show_if = none;
      industry_domain = some ecommerce_retail;
    }
    ∷ record {
      code = "Q-ECOM-RETURNS";
      stage_id = "industry_context";
      stage_label = literal "Industry context — E-commerce & Retail";
      stage_order = 2;
      label =
          literal "Does account deletion / erasure handle orders, wallets, and seller-held copies?";
      help_text =
          literal "Rights workflows must reach downstream copies, not only the login profile.";
      value_type = boolean_value;
      options = none;
      required = some true;
      show_if = none;
      industry_domain = some ecommerce_retail;
    }
    ∷ record {
      code = "Q-ECOM-CHILDREN";
      stage_id = "industry_context";
      stage_label = literal "Industry context — E-commerce & Retail";
      stage_order = 2;
      label =
          literal
            "Are products/services directed at children or do you knowingly sell to minors online?";
      help_text =
          literal
            "Child-directed commerce triggers Section 9 parental consent and tracking limits.";
      value_type = boolean_value;
      options = none;
      required = some true;
      show_if = none;
      industry_domain = some ecommerce_retail;
    }
    ∷ []
