-- ===== src/Remediation/Repository.antt =====
-- src/modules/remediation/repositories: queries and writes of remediation tasks, and the lookups of
-- users and violations.
use dpdpos_backend.Prelude.{
  ℕ, ◌+◌, String, JsText, Bool, true, false, ◌&&◌, Option, none, some, List, Patch, patch,
  patch_nullable, patch_some, str_eq,
}
use dpdpos_backend.Shared.Errors.{Result, ok, ◌>>=◌}
use dpdpos_backend.Shared.Context.{RequestContext, Call}
use dpdpos_backend.Shared.Tenant.{tenant_where}
use dpdpos_backend.Database.Versioned.{Columns, is_kept, optimistic_update}
use dpdpos_backend.Database.ByTenant.{find_in_tenant}
use dpdpos_backend.Database.Prisma.{Prisma, Db}
use dpdpos_backend.Violations.Types.{Violation}
use dpdpos_backend.Remediation.Lifecycle.{
  RemediationTaskStatus, pending, in_progress, pending_verification, verified, closed, cancelled,
}
use dpdpos_backend.Remediation.Types.{
  RemediationTask, RemediationTaskSource, is_auto, ListRemediationTasksQuery,
}

pub record CreateRemediationTaskData : Type 0 where
  pub violation_id : String
  pub source : RemediationTaskSource
  pub task_title : JsText
  pub task_description : Option JsText
  pub assigned_to : Option String
  pub due_at : Option ℕ

-- A stamp is written when it is given, and never cleared.
pub record UpdateRemediationTaskData : Type 0 where
  pub task_title : Option JsText
  pub task_description : Patch JsText
  pub status : Option RemediationTaskStatus
  pub assigned_to : Patch String
  pub due_at : Patch ℕ
  pub verification_notes : Patch JsText
  pub resolution_summary : Patch JsText
  pub verified_at : Option ℕ
  pub verified_by : Option String
  pub closed_at : Option ℕ

-- The row that `create` inserts, with the defaults of the schema.
unfoldable pub new_task : Call → RequestContext → CreateRemediationTaskData → RemediationTask
new_task call ctx input = record {
  id = call.new_id;
  organization_id = ctx.organization_id;
  violation_id = input.violation_id;
  source = input.source;
  task_title = input.task_title;
  task_description = input.task_description;
  status = pending;
  assigned_to = input.assigned_to;
  due_at = input.due_at;
  verified_at = none;
  verified_by = none;
  closed_at = none;
  verification_notes = none;
  resolution_summary = none;
  version = 1;
  created_by = some ctx.actor_user_id;
  updated_by = some ctx.actor_user_id;
  created_at = call.now;
  updated_at = call.now;
  deleted_at = none;
}

-- The `data` of `updateMany`.
unfoldable pub write_task :
    Call → RequestContext → UpdateRemediationTaskData → RemediationTask → RemediationTask
write_task call ctx d row = record row {
  task_title = patch d.task_title row.task_title;
  task_description = patch_nullable d.task_description row.task_description;
  status = patch d.status row.status;
  assigned_to = patch_nullable d.assigned_to row.assigned_to;
  due_at = patch_nullable d.due_at row.due_at;
  verification_notes = patch_nullable d.verification_notes row.verification_notes;
  resolution_summary = patch_nullable d.resolution_summary row.resolution_summary;
  verified_at = patch_some d.verified_at row.verified_at;
  verified_by = patch_some d.verified_by row.verified_by;
  closed_at = patch_some d.closed_at row.closed_at;
  version = row.version + 1;
  updated_by = some ctx.actor_user_id;
  updated_at = call.now;
}

abbrev pub task_columns : Columns RemediationTask
task_columns = record {
  organization_id = λ r. r.organization_id;
  version = λ r. r.version;
  deleted_at = λ r. r.deleted_at;
}

abbrev pub same_task_status : RemediationTaskStatus → RemediationTaskStatus → Bool
same_task_status pending pending = true
same_task_status in_progress in_progress = true
same_task_status pending_verification pending_verification = true
same_task_status verified verified = true
same_task_status closed closed = true
same_task_status cancelled cancelled = true
same_task_status _ _ = false

-- `...(options.column ? { column: options.column } : {})`.
abbrev pub matches_option : {A : Type 0} → (A → A → Bool) → Option A → Option A → Bool
matches_option eq none o = true
matches_option eq (some a) none = false
matches_option eq (some a) (some b) = eq b a

module _ (p : Prisma) where
  open p use {remediation_task, violation}

  unfoldable pub find_by_id : String → String → Db p → Result (Option RemediationTask)
  find_by_id org id db = find_in_tenant remediation_task task_columns org false id db.tasks

  unfoldable pub find_auto_task_by_violation :
      String → String → Db p → Result (Option RemediationTask)
  unfolding tenant_where
  find_auto_task_by_violation org violation_id db = do
    tenant ← tenant_where org false
    ok (
        remediation_task.find_first
          (λ r.
            str_eq r.violation_id violation_id
            && is_auto r.source
            && tenant r.organization_id r.deleted_at)
          db.tasks)

  unfoldable pub list_tasks :
      String → ListRemediationTasksQuery → Db p → Result (List RemediationTask)
  unfolding tenant_where
  list_tasks org options db = do
    tenant ← tenant_where org false
    ok (
        remediation_task.find_many
          (λ r.
            tenant r.organization_id r.deleted_at
            && matches_option same_task_status options.status (some r.status)
            && matches_option str_eq options.violation_id (some r.violation_id)
            && matches_option str_eq options.assigned_to r.assigned_to)
          (λ r. r.created_at) db.tasks)

  -- `none` is a violated unique index.
  unfoldable pub create :
      Call → RequestContext → CreateRemediationTaskData → Db p → Option (RemediationTask × Db p)
  unfolding new_task
  create call ctx input db =
      let row = new_task call ctx input in
      elim (remediation_task.create row db.tasks) [
        | none ↦ none
        | some tasks ↦ some (row, record db { tasks = tasks })
      ]

  -- The row as it stands after the write, or null when the expected version is stale.
  unfoldable pub update :
      Call
      → RequestContext
      → String
      → ℕ
      → UpdateRemediationTaskData
      → Db p
      → Option RemediationTask × Db p
  unfolding optimistic_update
  update call ctx id expected input db =
      let (found, tasks) =
        optimistic_update remediation_task task_columns ctx.organization_id id expected
          (write_task call ctx input) db.tasks in
      (found, record db { tasks = tasks })

  unfoldable pub find_violation : String → String → Db p → Option Violation
  find_violation org violation_id db =
      violation.find_first
        (λ v. str_eq v.id violation_id && str_eq v.organization_id org && is_kept v.deleted_at)
        db.violations
