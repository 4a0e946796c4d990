-- ===== src/Remediation/Effects.antt =====
-- What an operation of src/modules/remediation/services/remediation-task.service.ts can do to the
-- task table, whatever happened between its checks and its transaction: nothing, one new row, or
-- one versioned write that the state machine allowed for the row that the checks saw.

use dpdpos_backend.Prelude.{
  ℕ, String, ◌≡◌, refl, ◌∙◌, inl, inr, true, false, Option, none, some, arith, ap, is_some, given,
}
use dpdpos_backend.Shared.Errors.{ok, bind_ok}
use dpdpos_backend.Shared.Context.{RequestContext, Call}
use dpdpos_backend.Shared.Transaction.{with_transaction, with_transaction_cases, checked_cases}
use dpdpos_backend.Shared.Users.{assert_assignee_in_organization}
use dpdpos_backend.Database.Versioned.{is_kept}
use dpdpos_backend.Database.ByTenant.{find_in_tenant, find_in_tenant-some}
use dpdpos_backend.Database.Prisma.{Prisma, Db}
use dpdpos_backend.Remediation.Lifecycle.{
  RemediationTaskStatus, pending, can_transition, is_terminal,
}
use dpdpos_backend.Remediation.Types.{
  RemediationTask, UpdateRemediationTaskDto, CloseRemediationTaskBody,
}
use dpdpos_backend.Remediation.Repository.{UpdateRemediationTaskData, task_columns, find_by_id}
use dpdpos_backend.Remediation.Inputs.{
  is_verified, update_data, close_data, check_transition, require_verified,
}
use dpdpos_backend.Remediation.Service.{
  require_task, update_checks, update_task, update_in_transaction, close_checks, close_task,
  close_in_transaction,
}
use dpdpos_backend.Remediation.Writes.{updated, update_in_transaction_lem, close_in_transaction_lem}

-- The status that a write asks for is one that the state machine allows, and carries its stamp.
abbrev pub AllowedStatus : RemediationTaskStatus → Option RemediationTaskStatus → Option ℕ → Type 0
AllowedStatus from none stamp = Unit
AllowedStatus from (some to) stamp =
    (can_transition from to ≡ true) × (is_verified to ≡ true → is_some stamp ≡ true)

-- The checks of an operation passed on the row that they read.
pub record Allowed (p : Prisma) (read : Db p) (ctx : RequestContext) (id : String)
    (d : UpdateRemediationTaskData) : Type 0 where
  pub existing : RemediationTask
  pub seen : p.remediation_task.row read.tasks id ≡ some existing
  pub same_tenant : existing.organization_id ≡ ctx.organization_id
  pub not_terminal : is_terminal existing.status ≡ false
  pub status_allowed : AllowedStatus existing.status d.status d.verified_at

module _ (p : Prisma) where
  open p use {remediation_task}

  pub data TaskEffect (org : String) (read db db' : Db p) : Type 0 where
    kept : db'.tasks ≡ db.tasks → TaskEffect org read db db'
    added :
        (r : RemediationTask)
        → remediation_task.create r db.tasks ≡ some db'.tasks
        → r.status ≡ pending
        → r.organization_id ≡ org
        → TaskEffect org read db db'
    edited :
        (call : Call) (ctx : RequestContext) (id : String) (expected : ℕ)
        (d : UpdateRemediationTaskData)
        → ctx.organization_id ≡ org
        → Allowed p read ctx id d
        → db'.tasks ≡ updated p call ctx id expected d db
        → TaskEffect org read db db'

  require_task_lem :
      (ctx : RequestContext) (id : String) (db : Db p) (task : RemediationTask)
      → require_task p ctx id db ≡ ok task
      → (remediation_task.row db.tasks id ≡ some task)
        × (task.organization_id ≡ ctx.organization_id)
        × (is_kept task.deleted_at ≡ true)
  unfolding require_task find_by_id
  require_task_lem ctx id db task h =
      let (found, seen, rest) =
        bind_ok (find_in_tenant remediation_task task_columns ctx.organization_id false id db.tasks)
          _ h in
      find_in_tenant-some remediation_task task_columns ctx.organization_id id db.tasks task
        (ground arith)

  check_transition_lem :
      (from : RemediationTaskStatus) (wanted : Option RemediationTaskStatus) (stamp : Option ℕ)
      → check_transition from wanted ≡ ok tt
      → ((to : RemediationTaskStatus)
          → wanted ≡ some to
          → is_verified to ≡ true
          → is_some stamp ≡ true)
      → (is_terminal from ≡ false) × AllowedStatus from wanted stamp
  unfolding check_transition
  check_transition_lem from none stamp h stamped = (ground arith, tt)
  check_transition_lem from (some to) stamp h stamped =
      (ground arith, (ground arith, stamped to refl))

  update_data_stamps :
      (call : Call) (ctx : RequestContext) (input : UpdateRemediationTaskDto)
      (to : RemediationTaskStatus)
      → input.status ≡ some to
      → is_verified to ≡ true
      → is_some (update_data call ctx input).verified_at ≡ true
  unfolding update_data
  update_data_stamps call ctx input to e v = rw (e, v) refl

  update_checks_lem :
      (call : Call) (ctx : RequestContext) (id : String) (input : UpdateRemediationTaskDto)
      (read : Db p) (existing : RemediationTask)
      → update_checks p ctx id input read ≡ ok existing
      → Allowed p read ctx id (update_data call ctx input)
  unfolding update_checks
  update_checks_lem call ctx id input read existing h =
      let (task, required, h1) = bind_ok (require_task p ctx id read) _ h in
      let (u, assignee, h2) =
        bind_ok (assert_assignee_in_organization p ctx (given input.assigned_to) read) _ h1 in
      let (v, status, h3) = bind_ok (check_transition task.status input.status) _ h2 in
      let (seen, same_tenant, live) = require_task_lem ctx id read task required in
      let (open', allowed) =
        check_transition_lem task.status input.status (update_data call ctx input).verified_at
          status (update_data_stamps call ctx input) in
      record {
        existing = task;
        seen = seen;
        same_tenant = same_tenant;
        not_terminal = open';
        status_allowed = unfold update_data in allowed;
      }

  -- A lifecycle update.
  pub update_task_effect :
      (call : Call) (ctx : RequestContext) (id : String) (input : UpdateRemediationTaskDto)
      (read db : Db p)
      → TaskEffect ctx.organization_id read db (update_task p call ctx id input read db).1
  unfolding update_task
  update_task_effect call ctx id input read db =
      elim (checked_cases (update_checks p ctx id input read)
        (λ existing. with_transaction (update_in_transaction p call ctx id input existing)) db) [
          | inl same ↦ kept (ap (λ (d : Db p). d.tasks) same)
          | inr (existing, passed, e) ↦
              elim (with_transaction_cases (update_in_transaction p call ctx id input existing)
                db) [
                  | inl same ↦ kept (ap (λ (d : Db p). d.tasks) (ap (λ r. r.1) e ∙ same))
                  | inr (response, db', done, f) ↦
                      edited call ctx id input.version (update_data call ctx input) refl
                        (update_checks_lem call ctx id input read existing passed)
                        (ap (λ r. r.1.tasks) (e ∙ f)
                          ∙ ap (λ (d : Db p). d.tasks)
                              (update_in_transaction_lem p call ctx id input existing db db'
                                response done))
                ]
        ]

  close_checks_lem :
      (call : Call) (ctx : RequestContext) (id : String) (input : CloseRemediationTaskBody)
      (read : Db p)
      → close_checks p ctx id read ≡ ok tt
      → Allowed p read ctx id (close_data call input)
  unfolding close_checks
  close_checks_lem call ctx id input read h =
      let (task, required, h1) = bind_ok (require_task p ctx id read) _ h in
      let (seen, same_tenant, live) = require_task_lem ctx id read task required in
      record {
        existing = task;
        seen = seen;
        same_tenant = same_tenant;
        not_terminal = unfold require_verified is_terminal in ground arith;
        status_allowed =
            unfold require_verified close_data can_transition in (ground arith, ground arith);
      }

  -- Closing a task.
  pub close_task_effect :
      (call : Call) (ctx : RequestContext) (id : String) (input : CloseRemediationTaskBody)
      (read db : Db p)
      → TaskEffect ctx.organization_id read db (close_task p call ctx id input read db).1
  unfolding close_task
  close_task_effect call ctx id input read db =
      elim (checked_cases (close_checks p ctx id read)
        (λ _. with_transaction (close_in_transaction p call ctx id input)) db) [
          | inl same ↦ kept (ap (λ (d : Db p). d.tasks) same)
          | inr (u, passed, e) ↦
              elim (with_transaction_cases (close_in_transaction p call ctx id input) db) [
                | inl same ↦ kept (ap (λ (d : Db p). d.tasks) (ap (λ r. r.1) e ∙ same))
                | inr (response, db', done, f) ↦
                    edited call ctx id input.version (close_data call input) refl
                      (close_checks_lem call ctx id input read passed)
                      (ap (λ r. r.1.tasks) (e ∙ f)
                        ∙ ap (λ (d : Db p). d.tasks)
                            (close_in_transaction_lem p call ctx id input db db' response done))
              ]
        ]
