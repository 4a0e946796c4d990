-- ===== src/Assessments/Controls.antt =====
-- src/modules/assessments/domain/control-registry.ts and document-types.ts: the library of controls,
-- and which types of document support which of them.
use dpdpos_backend.Prelude.{String, JsText, literal, List, [], ◌∷◌, str_eq, if◌then◌else◌}
use dpdpos_backend.Violations.Types.{RuleSeverity, low, medium, high, critical}

pub record AssessmentControlDef : Type 0 where
  pub code : String
  pub category : JsText
  pub title : JsText
  pub severity : RuleSeverity
  pub question_codes : List String
  pub finding_types : List String
  pub doc_keywords : List JsText

unfoldable pub assessment_control_registry : List AssessmentControlDef
assessment_control_registry =
    record {
      code = "DPDP-CONSENT-NOTICE";
      category = literal "Consent";
      title = literal "Privacy notice present and meaningful";
      severity = high;
      question_codes = "Q-NOTICE-PUBLISHED" ∷ [];
      finding_types = "notice_language" ∷ "consent_reference" ∷ [];
      doc_keywords = literal "privacy notice" ∷ literal "collect" ∷ literal "personal data" ∷ [];
    }
    ∷ record {
      code = "DPDP-CONSENT-COLLECT";
      category = literal "Consent";
      title = literal "Consent collected before processing";
      severity = high;
      question_codes = "Q-CONSENT-COLLECT" ∷ [];
      finding_types = "consent_reference" ∷ [];
      doc_keywords = literal "consent" ∷ [];
    }
    ∷ record {
      code = "DPDP-CONSENT-WITHDRAW";
      category = literal "Consent";
      title = literal "Consent withdrawal available";
      severity = high;
      question_codes = "Q-CONSENT-WITHDRAW" ∷ [];
      finding_types = "consent_withdrawal" ∷ [];
      doc_keywords = literal "withdraw" ∷ literal "withdrawal" ∷ [];
    }
    ∷ record {
      code = "DPDP-RIGHTS-ACCESS";
      category = literal "Rights";
      title = literal "Access request handling";
      severity = high;
      question_codes = "Q-RIGHTS-ACCESS" ∷ [];
      finding_types = "access_endpoint" ∷ [];
      doc_keywords = literal "access request" ∷ literal "right to access" ∷ [];
    }
    ∷ record {
      code = "DPDP-RIGHTS-CORRECT";
      category = literal "Rights";
      title = literal "Correction request handling";
      severity = high;
      question_codes = "Q-RIGHTS-CORRECT" ∷ [];
      finding_types = "access_endpoint" ∷ [];
      doc_keywords =
          literal "correction" ∷ literal "rectification" ∷ literal "update personal" ∷ [];
    }
    ∷ record {
      code = "DPDP-RIGHTS-ERASURE";
      category = literal "Rights";
      title = literal "Erasure / deletion request handling";
      severity = critical;
      question_codes = "Q-RIGHTS-DELETE" ∷ [];
      finding_types = "deletion_endpoint" ∷ "erasure_logic" ∷ [];
      doc_keywords = literal "erasure" ∷ literal "delete" ∷ literal "right to be forgotten" ∷ [];
    }
    ∷ record {
      code = "DPDP-RIGHTS-GRIEVANCE";
      category = literal "Rights";
      title = literal "Grievance redressal workflow";
      severity = high;
      question_codes = "Q-GRIEVANCE" ∷ [];
      finding_types = "grievance_reference" ∷ [];
      doc_keywords = literal "grievance" ∷ [];
    }
    ∷ record {
      code = "DPDP-BREACH-DETECT";
      category = literal "Breach";
      title = literal "Breach detection capability";
      severity = critical;
      question_codes = "Q-BREACH-PROCESS" ∷ [];
      finding_types = "breach_reference" ∷ [];
      doc_keywords = literal "breach" ∷ literal "incident" ∷ [];
    }
    ∷ record {
      code = "DPDP-BREACH-NOTIFY";
      category = literal "Breach";
      title = literal "Breach notification workflow";
      severity = critical;
      question_codes = "Q-BREACH-PROCESS" ∷ [];
      finding_types = "breach_reference" ∷ [];
      doc_keywords = literal "notify" ∷ literal "board" ∷ literal "72" ∷ [];
    }
    ∷ record {
      code = "DPDP-RETENTION-SCHEDULE";
      category = literal "Retention";
      title = literal "Retention schedule exists";
      severity = medium;
      question_codes = "Q-RETENTION" ∷ [];
      finding_types = "retention_reference" ∷ "retention_config" ∷ [];
      doc_keywords = literal "retention" ∷ [];
    }
    ∷ record {
      code = "DPDP-RETENTION-LOGS";
      category = literal "Retention";
      title = literal "Log retention configured";
      severity = medium;
      question_codes = "Q-RETENTION" ∷ [];
      finding_types = "retention_config" ∷ "retention_reference" ∷ [];
      doc_keywords = literal "log retention" ∷ literal "retention" ∷ [];
    }
    ∷ record {
      code = "DPDP-VENDOR-INVENTORY";
      category = literal "Vendors";
      title = literal "Vendor / processor inventory";
      severity = high;
      question_codes = "Q-VENDORS" ∷ "Q-VENDOR-INVENTORY" ∷ [];
      finding_types = "vendor_reference" ∷ [];
      doc_keywords = literal "vendor" ∷ literal "processor" ∷ literal "subprocessor" ∷ [];
    }
    ∷ record {
      code = "DPDP-VENDOR-DPA";
      category = literal "Vendors";
      title = literal "Data processing agreements in place";
      severity = high;
      question_codes = "Q-DPA" ∷ [];
      finding_types = "vendor_reference" ∷ [];
      doc_keywords = literal "dpa" ∷ literal "data processing agreement" ∷ [];
    }
    ∷ record {
      code = "DPDP-GOV-OWNER";
      category = literal "Governance";
      title = literal "Privacy owner assigned";
      severity = medium;
      question_codes = "Q-PRIVACY-OWNER" ∷ [];
      finding_types = [];
      doc_keywords = literal "privacy officer" ∷ literal "dpo" ∷ literal "data protection" ∷ [];
    }
    ∷ record {
      code = "DPDP-GOV-TRAINING";
      category = literal "Governance";
      title = literal "Privacy training program";
      severity = low;
      question_codes = "Q-TRAINING" ∷ [];
      finding_types = [];
      doc_keywords = literal "training" ∷ [];
    }
    ∷ record {
      code = "DPDP-SDF-DPO";
      category = literal "SDF";
      title = literal "DPO assigned when SDF applicable";
      severity = high;
      question_codes = "Q-SDF" ∷ "Q-DPO" ∷ [];
      finding_types = [];
      doc_keywords = literal "data protection officer" ∷ literal "dpo" ∷ [];
    }
    ∷ []

-- `DOCUMENT_TYPE_CONTROL_HINTS[type] ?? []`.
unfoldable pub document_type_control_hints : String → List String
document_type_control_hints t =
    if str_eq t "PRIVACY_NOTICE"
    then "DPDP-CONSENT-NOTICE" ∷ "DPDP-CONSENT-COLLECT" ∷ []
    else if str_eq t "CONSENT_POLICY"
    then "DPDP-CONSENT-COLLECT" ∷ "DPDP-CONSENT-WITHDRAW" ∷ []
    else if str_eq t "RETENTION_POLICY"
    then "DPDP-RETENTION-SCHEDULE" ∷ "DPDP-RETENTION-LOGS" ∷ []
    else if str_eq t "BREACH_POLICY"
    then "DPDP-BREACH-DETECT" ∷ "DPDP-BREACH-NOTIFY" ∷ []
    else if str_eq t "RIGHTS_SOP"
    then "DPDP-RIGHTS-ACCESS" ∷ "DPDP-RIGHTS-CORRECT" ∷ "DPDP-RIGHTS-ERASURE"
      ∷ "DPDP-RIGHTS-GRIEVANCE" ∷ []
    else if str_eq t "VENDOR_DPA"
    then "DPDP-VENDOR-DPA" ∷ "DPDP-VENDOR-INVENTORY" ∷ []
    else if str_eq t "SECURITY_POLICY"
    then "DPDP-BREACH-DETECT" ∷ []
    else []
