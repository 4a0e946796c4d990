-- ===== src/Assessments/Questionnaire/ItSaas.antt =====
-- src/modules/assessments/domain/industries/it-saas.ts: the questions of the industry it_saas.
use dpdpos_backend.Prelude.{List, [], ◌∷◌, none, some, true, literal}
use dpdpos_backend.Assessments.Engine.{boolean}
use dpdpos_backend.Assessments.Questionnaire.Types.{
  QuestionnaireQuestion, boolean_value, string_value, it_saas,
}

unfoldable pub it_saas_questions : List QuestionnaireQuestion
it_saas_questions =
    record {
      code = "Q-SAAS-ROLE";
      stage_id = "industry_context";
      stage_label = literal "Industry context — IT & SaaS";
      stage_order = 2;
      label =
          literal
            "For customer personal data in the product, are you usually a Processor or a Fiduciary?";
      help_text =
          literal
            "Most B2B SaaS acts as processor for customer tenants — but product analytics or accounts may make you a fiduciary.";
      value_type = string_value;
      options = some ("PROCESSOR" ∷ "FIDUCIARY" ∷ "MIXED" ∷ []);
      required = some true;
      show_if = none;
      industry_domain = some it_saas;
    }
    ∷ record {
      code = "Q-SAAS-DPA-CUSTOMER";
      stage_id = "industry_context";
      stage_label = literal "Industry context — IT & SaaS";
      stage_order = 2;
      label = literal "Do you offer standard customer DPA / data processing terms?";
      help_text =
          literal "Enterprise buyers expect a signed DPA; upload a template under Documents.";
      value_type = boolean_value;
      options = none;
      required = some true;
      show_if = none;
      industry_domain = some it_saas;
    }
    ∷ record {
      code = "Q-SAAS-SUBPROCESSORS";
      stage_id = "industry_context";
      stage_label = literal "Industry context — IT & SaaS";
      stage_order = 2;
      label = literal "Do you publish or disclose a sub-processor list with change notice?";
      help_text = literal "Sub-processor transparency is a core SaaS accountability expectation.";
      value_type = boolean_value;
      options = none;
      required = some true;
      show_if = none;
      industry_domain = some it_saas;
    }
    ∷ record {
      code = "Q-SAAS-RESIDENCY";
      stage_id = "industry_context";
      stage_label = literal "Industry context — IT & SaaS";
      stage_order = 2;
      label =
          literal
            "Can customers choose data residency, or do you document hosting regions (IN vs multi-region)?";
      help_text = literal "Cross-border hosting must be disclosed and contractually controlled.";
      value_type = boolean_value;
      options = none;
      required = some true;
      show_if = none;
      industry_domain = some it_saas;
    }
    ∷ record {
      code = "Q-SAAS-EMPLOYEE";
      stage_id = "industry_context";
      stage_label = literal "Industry context — IT & SaaS";
      stage_order = 2;
      label = literal "Do you process your own employees’ or applicants’ personal data (HR)?";
      help_text =
          literal
            "HR processing is a separate fiduciary role even when the product is B2B processor.";
      value_type = boolean_value;
      options = none;
      required = some true;
      show_if = none;
      industry_domain = some it_saas;
    }
    ∷ record {
      code = "Q-SAAS-SUPPORT";
      stage_id = "industry_context";
      stage_label = literal "Industry context — IT & SaaS";
      stage_order = 2;
      label =
          literal
            "Can support tooling fulfil access/erasure without retaining production copies indefinitely?";
      help_text = literal "Support snapshots and tickets often become shadow personal-data stores.";
      value_type = boolean_value;
      options = none;
      required = some true;
      show_if = none;
      industry_domain = some it_saas;
    }
    ∷ record {
      code = "Q-SAAS-LOGS";
      stage_id = "industry_context";
      stage_label = literal "Industry context — IT & SaaS";
      stage_order = 2;
      label = literal "Are product/security log retention periods documented and minimised?";
      help_text =
          literal "Align log retention with security need and Rules oversight expectations.";
      value_type = boolean_value;
      options = none;
      required = some true;
      show_if = none;
      industry_domain = some it_saas;
    }
    ∷ record {
      code = "Q-SAAS-TRAINING-DATA";
      stage_id = "industry_context";
      stage_label = literal "Industry context — IT & SaaS";
      stage_order = 2;
      label = literal "Is customer personal data used to train ML models?";
      help_text =
          literal
            "Training on customer data is a secondary purpose that needs disclosure and control.";
      value_type = boolean_value;
      options = none;
      required = some true;
      show_if = none;
      industry_domain = some it_saas;
    }
    ∷ record {
      code = "Q-SAAS-TRAINING-OPT";
      stage_id = "industry_context";
      stage_label = literal "Industry context — IT & SaaS";
      stage_order = 2;
      label =
          literal
            "If yes — is ML training disclosed and controllable via customer contract/notice?";
      help_text =
          literal "Customers should be able to opt out or contractually forbid training use.";
      value_type = boolean_value;
      options = none;
      required = some true;
      show_if = some (record { code = "Q-SAAS-TRAINING-DATA"; equals = boolean true });
      industry_domain = some it_saas;
    }
    ∷ []
