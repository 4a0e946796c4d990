-- ===== src/Framework/FirstControls.antt =====
-- src/modules/framework/domain/templates.ts: the templates of controls, the first half of the list.
use dpdpos_backend.Prelude.{literal, true, none, some, List, [], ◌∷◌}
use dpdpos_backend.Framework.Types.{ControlTemplate, foundation, operations}

unfoldable pub first_control_templates : List ControlTemplate
first_control_templates =
    record {
      code = "CTRL-NOTICE";
      title = literal "Privacy notice program";
      description = literal "Establish and maintain privacy notices for all collection points.";
      legal_basis_ref = literal "DPDP Act 2023 s.5";
      phase = foundation;
      due_days_from_generate = 30;
      requirement_codes = "REQ-NOTICE-01" ∷ [];
      always = some true;
      requires_sdf = none;
      min_maturity = none;
      industries = none;
      min_department_count = none;
      requires_processors = none;
      min_sensitivity = none;
    }
    ∷ record {
      code = "CTRL-CONSENT";
      title = literal "Consent management";
      description = literal "Operate consent capture, proof storage, and withdrawal workflows.";
      legal_basis_ref = literal "DPDP Act 2023 s.6";
      phase = foundation;
      due_days_from_generate = 45;
      requirement_codes = "REQ-CONSENT-01" ∷ "REQ-CONSENT-02" ∷ [];
      always = some true;
      requires_sdf = none;
      min_maturity = none;
      industries = none;
      min_department_count = none;
      requires_processors = none;
      min_sensitivity = none;
    }
    ∷ record {
      code = "CTRL-PURPOSE";
      title = literal "Purpose limitation controls";
      description = literal "Ensure processing stays within documented lawful purposes.";
      legal_basis_ref = literal "DPDP Act 2023 s.4";
      phase = foundation;
      due_days_from_generate = 30;
      requirement_codes = "REQ-PURPOSE-01" ∷ [];
      always = some true;
      requires_sdf = none;
      min_maturity = none;
      industries = none;
      min_department_count = none;
      requires_processors = none;
      min_sensitivity = none;
    }
    ∷ record {
      code = "CTRL-INVENTORY";
      title = literal "Personal data inventory";
      description = literal "Map assets, purposes, systems, and recipients across departments.";
      legal_basis_ref = literal "DPDP Rules 2025 — record keeping";
      phase = foundation;
      due_days_from_generate = 60;
      requirement_codes = "REQ-INVENTORY-01" ∷ [];
      always = some true;
      requires_sdf = none;
      min_maturity = none;
      industries = none;
      min_department_count = none;
      requires_processors = none;
      min_sensitivity = none;
    }
    ∷ record {
      code = "CTRL-SECURITY";
      title = literal "Security safeguards";
      description = literal "Apply access control, encryption, logging, and breach readiness.";
      legal_basis_ref = literal "DPDP Act 2023 s.8(5)";
      phase = operations;
      due_days_from_generate = 60;
      requirement_codes = "REQ-SECURITY-01" ∷ [];
      always = some true;
      requires_sdf = none;
      min_maturity = none;
      industries = none;
      min_department_count = none;
      requires_processors = none;
      min_sensitivity = none;
    }
    ∷ record {
      code = "CTRL-RETENTION";
      title = literal "Retention and erasure";
      description = literal "Define retention schedules and erasure workflows per purpose.";
      legal_basis_ref = literal "DPDP Act 2023 s.8(7)";
      phase = operations;
      due_days_from_generate = 75;
      requirement_codes = "REQ-RETENTION-01" ∷ [];
      always = some true;
      requires_sdf = none;
      min_maturity = none;
      industries = none;
      min_department_count = none;
      requires_processors = none;
      min_sensitivity = none;
    }
    ∷ record {
      code = "CTRL-RIGHTS";
      title = literal "Data principal rights desk";
      description = literal "Operate an SLA-tracked rights request intake and fulfillment process.";
      legal_basis_ref = literal "DPDP Act 2023 ss.11-13";
      phase = operations;
      due_days_from_generate = 45;
      requirement_codes = "REQ-RIGHTS-01" ∷ [];
      always = some true;
      requires_sdf = none;
      min_maturity = none;
      industries = none;
      min_department_count = none;
      requires_processors = none;
      min_sensitivity = none;
    }
    ∷ []
