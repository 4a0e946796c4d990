-- ===== src/Framework/Requirements.antt =====
-- src/modules/framework/domain/templates.ts: the templates of requirements.
use dpdpos_backend.Prelude.{String, JsText, literal, List, [], ◌∷◌}

pub record RequirementTemplate : Type 0 where
  pub code : String
  pub title : JsText
  pub description : JsText
  pub legal_basis_ref : JsText

unfoldable pub requirement_templates : List RequirementTemplate
requirement_templates =
    record {
      code = "REQ-NOTICE-01";
      title = literal "Privacy notice content";
      description = literal "Publish a notice covering purpose, rights, and contact details.";
      legal_basis_ref = literal "DPDP Act 2023 s.5";
    }
    ∷ record {
      code = "REQ-CONSENT-01";
      title = literal "Consent capture";
      description = literal "Obtain free, specific, informed, unconditional, and clear consent.";
      legal_basis_ref = literal "DPDP Act 2023 s.6";
    }
    ∷ record {
      code = "REQ-CONSENT-02";
      title = literal "Consent withdrawal";
      description = literal "Provide an easy means to withdraw consent comparable to giving it.";
      legal_basis_ref = literal "DPDP Act 2023 s.6(4)";
    }
    ∷ record {
      code = "REQ-PURPOSE-01";
      title = literal "Purpose limitation";
      description = literal "Process personal data only for the stated lawful purpose.";
      legal_basis_ref = literal "DPDP Act 2023 s.4";
    }
    ∷ record {
      code = "REQ-RETENTION-01";
      title = literal "Retention and erasure";
      description = literal "Erase personal data when the purpose is no longer served.";
      legal_basis_ref = literal "DPDP Act 2023 s.8(7)";
    }
    ∷ record {
      code = "REQ-SECURITY-01";
      title = literal "Security safeguards";
      description = literal "Implement reasonable security safeguards to prevent breaches.";
      legal_basis_ref = literal "DPDP Act 2023 s.8(5)";
    }
    ∷ record {
      code = "REQ-RIGHTS-01";
      title = literal "Data principal rights desk";
      description = literal "Enable access, correction, erasure, and grievance redressal requests.";
      legal_basis_ref = literal "DPDP Act 2023 ss.11-13";
    }
    ∷ record {
      code = "REQ-CHILDREN-01";
      title = literal "Children's data verifiable consent";
      description =
          literal "Obtain verifiable consent of parent/guardian before processing children's data.";
      legal_basis_ref = literal "DPDP Act 2023 s.9";
    }
    ∷ record {
      code = "REQ-PROCESSOR-01";
      title = literal "Processor contracts";
      description = literal "Bind processors by contract to process only as instructed.";
      legal_basis_ref = literal "DPDP Act 2023 s.8(2)";
    }
    ∷ record {
      code = "REQ-TRANSFER-01";
      title = literal "Cross-border transfer controls";
      description =
          literal "Restrict transfers to jurisdictions not prohibited by the Central Government.";
      legal_basis_ref = literal "DPDP Act 2023 s.16";
    }
    ∷ record {
      code = "REQ-DPO-01";
      title = literal "Significant Data Fiduciary DPO";
      description = literal "Appoint a Data Protection Officer based in India.";
      legal_basis_ref = literal "DPDP Act 2023 s.10(2)(a)";
    }
    ∷ record {
      code = "REQ-AUDIT-01";
      title = literal "Independent data audit";
      description = literal "Engage an independent data auditor for periodic audits.";
      legal_basis_ref = literal "DPDP Act 2023 s.10(2)(b)";
    }
    ∷ record {
      code = "REQ-DPIA-01";
      title = literal "Data protection impact assessment";
      description = literal "Carry out DPIA for high-risk processing activities.";
      legal_basis_ref = literal "DPDP Act 2023 s.10(2)(c)";
    }
    ∷ record {
      code = "REQ-INVENTORY-01";
      title = literal "Processing activity register";
      description = literal "Maintain an inventory of personal data processing activities.";
      legal_basis_ref = literal "DPDP Rules 2025 — record keeping";
    }
    ∷ record {
      code = "REQ-TRAINING-01";
      title = literal "Workforce awareness";
      description = literal "Train staff who handle personal data on DPDP obligations.";
      legal_basis_ref = literal "DPDP Act 2023 s.8 — accountability";
    }
    ∷ []
