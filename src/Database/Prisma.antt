-- ===== src/Database/Prisma.antt =====
-- The tables that the modelled services share, and the state of the database: the contents of all
-- of them. Of users, validation results and validation rules, which these services only read, a
-- row has the columns that they read.
use dpdpos_backend.Prelude.{ℕ, String, JsText, Bool, false, Option}
use dpdpos_backend.Database.Table.{Table}
use dpdpos_backend.Outbox.Events.{OutboxTable}
use dpdpos_backend.Remediation.Types.{RemediationTask, task_key, task_clash}
use dpdpos_backend.Violations.Types.{Violation, violation_key, violation_clash}
use dpdpos_backend.Rights.Types.{DataSubjectRequest, request_key}

pub record User : Type 0 where
  pub id : String
  pub organization_id : String
  pub deleted_at : Option ℕ

abbrev pub user_key : User → String
user_key u = u.id

pub record ValidationResult : Type 0 where
  pub id : String
  pub organization_id : String
  pub explanation : Option JsText
  pub deleted_at : Option ℕ

abbrev pub result_key : ValidationResult → String
result_key r = r.id

pub record ValidationRule : Type 0 where
  pub id : String
  pub organization_id : String
  pub title : JsText
  pub deleted_at : Option ℕ

abbrev pub rule_key : ValidationRule → String
rule_key r = r.id

-- A table with no unique index that the modelled writes could violate, besides its primary key.
abbrev pub no_clash : {R : Type 0} → R → R → Bool
no_clash r s = false

pub record Prisma : Type 1 where
  pub remediation_task : Table RemediationTask task_key task_clash
  pub violation : Table Violation violation_key violation_clash
  pub data_subject_request : Table DataSubjectRequest request_key no_clash
  pub user : Table User user_key no_clash
  pub validation_result : Table ValidationResult result_key no_clash
  pub validation_rule : Table ValidationRule rule_key no_clash
  pub outbox_event : OutboxTable

pub record Db (p : Prisma) : Type 0 where
  pub tasks : p.remediation_task.Content
  pub violations : p.violation.Content
  pub requests : p.data_subject_request.Content
  pub users : p.user.Content
  pub results : p.validation_result.Content
  pub rules : p.validation_rule.Content
  pub outbox : p.outbox_event.Content
