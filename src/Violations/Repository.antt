-- ===== src/Violations/Repository.antt =====
-- src/modules/violations/repositories: queries and writes of violations, and the reads of validation
-- results and rules that the service makes.
use dpdpos_backend.Prelude.{
  ℕ, ◌+◌, String, JsText, Bool, true, false, ◌&&◌, Option, none, some, List, Patch, patch,
  patch_nullable, patch_some, str_eq, text_eq,
}
use mathlib.Core.Option
use dpdpos_backend.Shared.Errors.{Result, ok, ◌>>=◌}
use dpdpos_backend.Shared.Context.{RequestContext, Call}
use dpdpos_backend.Shared.Tenant.{tenant_where}
use dpdpos_backend.Database.Versioned.{Columns, optimistic_update}
use dpdpos_backend.Database.ByTenant.{find_in_tenant}
use dpdpos_backend.Database.Prisma.{Prisma, Db, ValidationResult, ValidationRule}
use dpdpos_backend.Violations.Lifecycle.{
  ViolationStatus, opened, triage, assigned, in_progress, pending_evidence, validated, closed,
  archived,
}
use dpdpos_backend.Violations.Types.{
  Violation, RuleSeverity, low, medium, high, critical, same_some, ListViolationsQuery,
}

pub record CreateViolationData : Type 0 where
  pub validation_result_id : Option String
  pub source_key : Option JsText
  pub severity : RuleSeverity
  pub title : JsText
  pub description : Option JsText
  pub assigned_to : Option String
  pub due_at : Option ℕ
  pub evidence_required_flag : Option Bool

pub record UpdateViolationData : Type 0 where
  pub title : Option JsText
  pub description : Patch JsText
  pub severity : Option RuleSeverity
  pub assigned_to : Patch String
  pub status : Option ViolationStatus
  pub due_at : Patch ℕ
  pub resolution_summary : Patch JsText
  pub closed_at : Option ℕ

-- The row that `create` inserts, with the defaults of the schema.
unfoldable pub new_violation : Call → RequestContext → CreateViolationData → Violation
new_violation call ctx input = record {
  id = call.new_id;
  organization_id = ctx.organization_id;
  validation_result_id = input.validation_result_id;
  source_key = input.source_key;
  severity = input.severity;
  title = input.title;
  description = input.description;
  status = opened;
  assigned_to = input.assigned_to;
  opened_at = call.now;
  due_at = input.due_at;
  closed_at = none;
  resolution_summary = none;
  evidence_required_flag = Option.get_or input.evidence_required_flag false;
  version = 1;
  created_by = some ctx.actor_user_id;
  updated_by = some ctx.actor_user_id;
  created_at = call.now;
  updated_at = call.now;
  deleted_at = none;
}

-- The `data` of `updateMany`.
unfoldable pub write_violation : Call → RequestContext → UpdateViolationData → Violation → Violation
write_violation call ctx d row = record row {
  title = patch d.title row.title;
  description = patch_nullable d.description row.description;
  severity = patch d.severity row.severity;
  assigned_to = patch_nullable d.assigned_to row.assigned_to;
  status = patch d.status row.status;
  due_at = patch_nullable d.due_at row.due_at;
  resolution_summary = patch_nullable d.resolution_summary row.resolution_summary;
  closed_at = patch_some d.closed_at row.closed_at;
  version = row.version + 1;
  updated_by = some ctx.actor_user_id;
  updated_at = call.now;
}

abbrev pub violation_columns : Columns Violation
violation_columns = record {
  organization_id = λ r. r.organization_id;
  version = λ r. r.version;
  deleted_at = λ r. r.deleted_at;
}

abbrev pub result_columns : Columns ValidationResult
result_columns = record {
  organization_id = λ r. r.organization_id;
  version = λ r. 0;
  deleted_at = λ r. r.deleted_at;
}

abbrev pub rule_columns : Columns ValidationRule
rule_columns = record {
  organization_id = λ r. r.organization_id;
  version = λ r. 0;
  deleted_at = λ r. r.deleted_at;
}

abbrev pub same_violation_status : ViolationStatus → ViolationStatus → Bool
same_violation_status opened opened = true
same_violation_status triage triage = true
same_violation_status assigned assigned = true
same_violation_status in_progress in_progress = true
same_violation_status pending_evidence pending_evidence = true
same_violation_status validated validated = true
same_violation_status closed closed = true
same_violation_status archived archived = true
same_violation_status _ _ = false

abbrev pub same_severity : RuleSeverity → RuleSeverity → Bool
same_severity low low = true
same_severity medium medium = true
same_severity high high = true
same_severity critical critical = true
same_severity _ _ = false

-- `...(options.column ? { column: options.column } : {})`.
abbrev pub when_given : {A : Type 0} → (A → A → Bool) → Option A → Option A → Bool
when_given eq none o = true
when_given eq (some a) o = same_some eq (some a) o

module _ (p : Prisma) where
  open p use {violation, validation_result, validation_rule}

  unfoldable pub find_by_id : String → String → Db p → Result (Option Violation)
  find_by_id org id db = find_in_tenant violation violation_columns org false id db.violations

  unfoldable pub find_by_validation_result : String → String → Db p → Result (Option Violation)
  find_by_validation_result org result_id db = do
    tenant ← tenant_where org false
    ok (
        violation.find_first
          (λ r.
            same_some str_eq (some result_id) r.validation_result_id
            && tenant r.organization_id r.deleted_at)
          db.violations)

  unfoldable pub find_by_source_key : String → JsText → Db p → Result (Option Violation)
  find_by_source_key org source_key db = do
    tenant ← tenant_where org false
    ok (
        violation.find_first
          (λ r.
            same_some text_eq (some source_key) r.source_key
            && tenant r.organization_id r.deleted_at)
          db.violations)

  unfoldable pub list_violations : String → ListViolationsQuery → Db p → Result (List Violation)
  list_violations org options db = do
    tenant ← tenant_where org false
    ok (
        violation.find_many
          (λ r.
            tenant r.organization_id r.deleted_at
            && when_given same_violation_status options.status (some r.status)
            && when_given same_severity options.severity (some r.severity)
            && when_given str_eq options.assigned_to r.assigned_to)
          (λ r. r.opened_at) db.violations)

  -- `none` is a violated unique index.
  unfoldable pub create :
      Call → RequestContext → CreateViolationData → Db p → Option (Violation × Db p)
  create call ctx input db =
      let row = new_violation call ctx input in
      elim (violation.create row db.violations) [
        | none ↦ none
        | some violations ↦ some (row, record db { violations = violations })
      ]

  -- The row as it stands after the write, or null when the expected version is stale.
  unfoldable pub update :
      Call → RequestContext → String → ℕ → UpdateViolationData → Db p → Option Violation × Db p
  update call ctx id expected input db =
      let (found, violations) =
        optimistic_update violation violation_columns ctx.organization_id id expected
          (write_violation call ctx input) db.violations in
      (found, record db { violations = violations })

  unfoldable pub find_result : String → String → Db p → Result (Option ValidationResult)
  find_result org id db = find_in_tenant validation_result result_columns org false id db.results

  unfoldable pub find_rule : String → String → Db p → Result (Option ValidationRule)
  find_rule org id db = find_in_tenant validation_rule rule_columns org false id db.rules
