-- ===== src/Assessments/Questionnaire/BankingFinance.antt =====
-- src/modules/assessments/domain/industries/banking-finance.ts: the questions of the industry banking_finance.
use dpdpos_backend.Prelude.{List, [], ◌∷◌, none, some, true, literal}
use dpdpos_backend.Assessments.Questionnaire.Types.{
  QuestionnaireQuestion, boolean_value, string_value, banking_finance,
}

unfoldable pub banking_finance_questions : List QuestionnaireQuestion
banking_finance_questions =
    record {
      code = "Q-BFSI-SEGMENTS";
      stage_id = "industry_context";
      stage_label = literal "Industry context — Banking & Fintech";
      stage_order = 2;
      label = literal "Which primary segments do you serve?";
      help_text =
          literal
            "Segment shapes KYC intensity, retention mandates, and regulator overlap (RBI / payments).";
      value_type = string_value;
      options =
          some ("BANK" ∷ "NBFC" ∷ "PAYMENTS" ∷ "LENDING" ∷ "INSURTECH" ∷ "WEALTH" ∷ "OTHER" ∷ []);
      required = some true;
      show_if = none;
      industry_domain = some banking_finance;
    }
    ∷ record {
      code = "Q-BFSI-KYC";
      stage_id = "industry_context";
      stage_label = literal "Industry context — Banking & Fintech";
      stage_order = 2;
      label = literal "Do you collect KYC / government ID for onboarding?";
      help_text =
          literal
            "KYC identifiers are high-sensitivity. Map retention to RBI rules and erasure exceptions.";
      value_type = boolean_value;
      options = none;
      required = some true;
      show_if = none;
      industry_domain = some banking_finance;
    }
    ∷ record {
      code = "Q-BFSI-LOCALISATION";
      stage_id = "industry_context";
      stage_label = literal "Industry context — Banking & Fintech";
      stage_order = 2;
      label =
          literal
            "Is payment / customer account data stored and processed in India as required by applicable RBI norms?";
      help_text =
          literal
            "Payment data localisation is a common RBI expectation — document residency and exceptions.";
      value_type = boolean_value;
      options = none;
      required = some true;
      show_if = none;
      industry_domain = some banking_finance;
    }
    ∷ record {
      code = "Q-BFSI-FRAUD";
      stage_id = "industry_context";
      stage_label = literal "Industry context — Banking & Fintech";
      stage_order = 2;
      label =
          literal
            "Is fraud / AML monitoring disclosed as a purpose (or lawful use) in your notice?";
      help_text =
          literal
            "Fraud monitoring must not be a hidden purpose. Align notice language with actual monitoring.";
      value_type = boolean_value;
      options = none;
      required = some true;
      show_if = none;
      industry_domain = some banking_finance;
    }
    ∷ record {
      code = "Q-BFSI-RETENTION-CONFLICT";
      stage_id = "industry_context";
      stage_label = literal "Industry context — Banking & Fintech";
      stage_order = 2;
      label =
          literal
            "Have you mapped where RBI/SEBI retention mandates override or delay DPDP erasure?";
      help_text =
          literal
            "Sector retention often conflicts with erasure requests — document lawful hold periods.";
      value_type = boolean_value;
      options = none;
      required = some true;
      show_if = none;
      industry_domain = some banking_finance;
    }
    ∷ record {
      code = "Q-BFSI-BREACH-REG";
      stage_id = "industry_context";
      stage_label = literal "Industry context — Banking & Fintech";
      stage_order = 2;
      label =
          literal
            "Does your breach playbook include sector regulator notification (e.g. RBI) in addition to the DPDP Board?";
      help_text = literal "BFSI often faces dual/triple reporting (Board, CERT-In, RBI).";
      value_type = boolean_value;
      options = none;
      required = some true;
      show_if = none;
      industry_domain = some banking_finance;
    }
    ∷ record {
      code = "Q-BFSI-ACCOUNT-AGG";
      stage_id = "industry_context";
      stage_label = literal "Industry context — Banking & Fintech";
      stage_order = 2;
      label =
          literal
            "Do you share data with account aggregators, credit bureaus, or payment partners under contracts?";
      help_text =
          literal
            "These partners are processors or joint arrangements — cover them in DPAs/inventory.";
      value_type = boolean_value;
      options = none;
      required = some true;
      show_if = none;
      industry_domain = some banking_finance;
    }
    ∷ record {
      code = "Q-BFSI-CONSENT-UNBUNDLE";
      stage_id = "industry_context";
      stage_label = literal "Industry context — Banking & Fintech";
      stage_order = 2;
      label = literal "Are marketing / cross-sell consents unbundled from account opening?";
      help_text =
          literal
            "Bundled marketing consent with KYC onboarding is a frequent DPDP consent-quality failure.";
      value_type = boolean_value;
      options = none;
      required = some true;
      show_if = none;
      industry_domain = some banking_finance;
    }
    ∷ record {
      code = "Q-BFSI-CHILDREN";
      stage_id = "industry_context";
      stage_label = literal "Industry context — Banking & Fintech";
      stage_order = 2;
      label = literal "Do any products knowingly onboard minors (e.g. student/minor accounts)?";
      help_text =
          literal
            "Minor accounts trigger children’s-data duties including verifiable guardian consent.";
      value_type = boolean_value;
      options = none;
      required = some true;
      show_if = none;
      industry_domain = some banking_finance;
    }
    ∷ []
