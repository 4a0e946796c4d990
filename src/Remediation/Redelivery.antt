-- ===== src/Remediation/Redelivery.antt =====
-- Redelivery of a ViolationCreated event to src/modules/remediation.

use dpdpos_backend.Prelude.{
  String, ◌≡◌, refl, Bool, true, false, ◌&&◌, some, str_eq, truthy, inl, inr, Option-cases,
}
use dpdpos_backend.Shared.Errors.{ok}
use dpdpos_backend.Shared.Context.{RequestContext, Call}
use dpdpos_backend.Shared.Tenant.{require_organization_id, tenant_where, in_tenant}
use dpdpos_backend.Database.Prisma.{Prisma, Db}
use dpdpos_backend.Remediation.Types.{
  RemediationTask, to_remediation_task_response, ViolationCreatedPayload, is_auto,
}
use dpdpos_backend.Remediation.Repository.{find_auto_task_by_violation}
use dpdpos_backend.Remediation.Service.{
  create_from_violation_created, for_violation, auto_task_unless_found,
}

module _ (p : Prisma) (call : Call) (ctx : RequestContext)
    (tenant : require_organization_id ctx.organization_id ≡ ok ctx.organization_id) where
  open p use {remediation_task}

  abbrev pub is_auto_task_of : String → RemediationTask → Bool
  is_auto_task_of violation_id r =
      str_eq r.violation_id violation_id
      && is_auto r.source
      && in_tenant ctx.organization_id false r.organization_id r.deleted_at

  find_auto_lem :
      (violation_id : String) (db : Db p)
      → find_auto_task_by_violation p ctx.organization_id violation_id db
        ≡ ok (remediation_task.find_first (is_auto_task_of violation_id) db.tasks)
  unfolding find_auto_task_by_violation tenant_where
  find_auto_lem violation_id db = rw tenant refl

  -- For a caller with an organization, a delivery whose checks see an AUTO task of the violation,
  -- of that organization and not deleted, answers with such a task that the checks saw and leaves
  -- the database as its transaction finds it.
  pub redelivery_writes_nothing :
      (payload : ViolationCreatedPayload) (violation_id k : String) (r : RemediationTask)
      (read db : Db p)
      → truthy payload.violation_id ≡ some violation_id
      → remediation_task.row read.tasks k ≡ some r
      → is_auto_task_of violation_id r ≡ true
      → (s : RemediationTask) × (remediation_task.row read.tasks s.id ≡ some s)
        × (is_auto_task_of violation_id s ≡ true)
        × (create_from_violation_created p call ctx payload read db
            ≡ (ok (some (to_remediation_task_response s)), db))
  unfolding create_from_violation_created for_violation auto_task_unless_found
  redelivery_writes_nothing payload violation_id k r read db given there matches =
      elim (Option-cases (remediation_task.find_first (is_auto_task_of violation_id) read.tasks)) [
        | inl absent ↦ cc (
          remediation_task.find_first_none (is_auto_task_of violation_id) read.tasks absent k r
              there,
          matches,
        )
        | inr (s, found) ↦ (
          s,
          (remediation_task.find_first_some (is_auto_task_of violation_id) read.tasks s found).0,
          (remediation_task.find_first_some (is_auto_task_of violation_id) read.tasks s found).1,
          rw (given, find_auto_lem violation_id read, found) refl,
        )
      ]
