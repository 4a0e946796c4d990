-- ===== src/Framework/LaterControls.antt =====
-- src/modules/framework/domain/templates.ts: the templates of controls, the second half of the list.
use dpdpos_backend.Prelude.{literal, true, none, some, List, [], ◌∷◌}
use dpdpos_backend.Framework.Types.{
  ControlTemplate, high_sensitivity, intermediate, medium_sensitivity, operations, oversight,
  significant_fiduciary,
}

unfoldable pub later_control_templates : List ControlTemplate
later_control_templates =
    record {
      code = "CTRL-TRAINING";
      title = literal "Privacy awareness training";
      description = literal "Deliver role-based DPDP training and track completion.";
      legal_basis_ref = literal "DPDP Act 2023 s.8 — accountability";
      phase = oversight;
      due_days_from_generate = 90;
      requirement_codes = "REQ-TRAINING-01" ∷ [];
      always = none;
      requires_sdf = none;
      min_maturity = some intermediate;
      industries = none;
      min_department_count = none;
      requires_processors = none;
      min_sensitivity = none;
    }
    ∷ record {
      code = "CTRL-CHILDREN";
      title = literal "Children's data protections";
      description = literal "Gate children's data processing behind verifiable parental consent.";
      legal_basis_ref = literal "DPDP Act 2023 s.9";
      phase = operations;
      due_days_from_generate = 60;
      requirement_codes = "REQ-CHILDREN-01" ∷ [];
      always = none;
      requires_sdf = none;
      min_maturity = none;
      industries =
          some
            (literal "education" ∷ literal "healthcare" ∷ literal "gaming" ∷ literal "social" ∷ []);
      min_department_count = none;
      requires_processors = none;
      min_sensitivity = some medium_sensitivity;
    }
    ∷ record {
      code = "CTRL-PROCESSOR";
      title = literal "Processor oversight";
      description = literal "Contract, diligence, and monitor third-party processors.";
      legal_basis_ref = literal "DPDP Act 2023 s.8(2)";
      phase = operations;
      due_days_from_generate = 60;
      requirement_codes = "REQ-PROCESSOR-01" ∷ [];
      always = none;
      requires_sdf = none;
      min_maturity = none;
      industries = none;
      min_department_count = none;
      requires_processors = some true;
      min_sensitivity = none;
    }
    ∷ record {
      code = "CTRL-TRANSFER";
      title = literal "Cross-border transfer governance";
      description = literal "Assess and control transfers of personal data outside India.";
      legal_basis_ref = literal "DPDP Act 2023 s.16";
      phase = oversight;
      due_days_from_generate = 90;
      requirement_codes = "REQ-TRANSFER-01" ∷ [];
      always = none;
      requires_sdf = none;
      min_maturity = some intermediate;
      industries = none;
      min_department_count = none;
      requires_processors = none;
      min_sensitivity = some high_sensitivity;
    }
    ∷ record {
      code = "CTRL-SDF-DPO";
      title = literal "Appoint Data Protection Officer";
      description = literal "Designate an India-based DPO for Significant Data Fiduciary duties.";
      legal_basis_ref = literal "DPDP Act 2023 s.10(2)(a)";
      phase = significant_fiduciary;
      due_days_from_generate = 30;
      requirement_codes = "REQ-DPO-01" ∷ [];
      always = none;
      requires_sdf = some true;
      min_maturity = none;
      industries = none;
      min_department_count = none;
      requires_processors = none;
      min_sensitivity = none;
    }
    ∷ record {
      code = "CTRL-SDF-AUDIT";
      title = literal "Independent data audit";
      description = literal "Schedule and complete independent data protection audits.";
      legal_basis_ref = literal "DPDP Act 2023 s.10(2)(b)";
      phase = significant_fiduciary;
      due_days_from_generate = 120;
      requirement_codes = "REQ-AUDIT-01" ∷ [];
      always = none;
      requires_sdf = some true;
      min_maturity = none;
      industries = none;
      min_department_count = none;
      requires_processors = none;
      min_sensitivity = none;
    }
    ∷ record {
      code = "CTRL-SDF-DPIA";
      title = literal "DPIA for high-risk processing";
      description = literal "Perform and maintain DPIAs for high-risk activities.";
      legal_basis_ref = literal "DPDP Act 2023 s.10(2)(c)";
      phase = significant_fiduciary;
      due_days_from_generate = 90;
      requirement_codes = "REQ-DPIA-01" ∷ [];
      always = none;
      requires_sdf = some true;
      min_maturity = none;
      industries = none;
      min_department_count = none;
      requires_processors = none;
      min_sensitivity = none;
    }
    ∷ []
