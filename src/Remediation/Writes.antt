-- ===== src/Remediation/Writes.antt =====
-- What a committed write of src/modules/remediation/services/remediation-task.service.ts does to the
-- tables: the shape of every successful transaction.
use dpdpos_backend.Prelude.{ℕ, String, ◌≡◌, refl, Option, arith}
use dpdpos_backend.Shared.Errors.{ok, bind_ok}
use dpdpos_backend.Shared.Context.{RequestContext, Call}
use dpdpos_backend.Shared.Transaction.{or_stale_ok}
use dpdpos_backend.Outbox.Events.{write_outbox_event}
use dpdpos_backend.Database.Versioned.{optimistic_update, IsVersionedWrite}
use dpdpos_backend.Database.Prisma.{Prisma, Db}
use dpdpos_backend.Remediation.Types.{
  RemediationTask, RemediationTaskResponse, UpdateRemediationTaskDto, CloseRemediationTaskBody,
}
use dpdpos_backend.Remediation.Repository.{
  UpdateRemediationTaskData, task_columns, write_task, update,
}
use dpdpos_backend.Remediation.Inputs.{update_data, close_data, new_assignee}
use dpdpos_backend.Remediation.Service.{
  write_assigned_outbox, finish_update, update_in_transaction, close_in_transaction,
}

-- A write keeps the key, the organization and the deletion date, and adds one to the version.
pub write_task-IsVersionedWrite :
    (p : Prisma) (call : Call) (ctx : RequestContext) (d : UpdateRemediationTaskData)
    → IsVersionedWrite p.remediation_task task_columns (write_task call ctx d)
unfolding write_task
write_task-IsVersionedWrite p call ctx d = record {
  same_key = λ r. refl;
  same_organization = λ r. refl;
  same_deletion = λ r. refl;
  next_version = λ r. refl;
}

module _ (p : Prisma) (call : Call) (ctx : RequestContext) where
  pub write_assigned_outbox_keeps :
      (task : RemediationTask) (assignee : Option String) (db db' : Db p)
      → write_assigned_outbox p call ctx task assignee db ≡ ok db'
      → db' ≡ record db { outbox = db'.outbox }
  unfolding write_assigned_outbox write_outbox_event
  write_assigned_outbox_keeps task assignee db db' h = ground arith

  -- The tasks after an update by `d`.
  abbrev pub updated : String → ℕ → UpdateRemediationTaskData → Db p → p.remediation_task.Content
  updated id expected d db =
      (optimistic_update p.remediation_task task_columns ctx.organization_id id expected
        (write_task call ctx d) db.tasks).1

  pub update_in_transaction_lem :
      (id : String) (input : UpdateRemediationTaskDto) (existing : RemediationTask) (db db' : Db p)
      (response : RemediationTaskResponse)
      → update_in_transaction p call ctx id input existing db ≡ ok (response, db')
      → db' ≡ record db {
        tasks = updated id input.version (update_data call ctx input) db;
        outbox = db'.outbox;
      }
  unfolding update_in_transaction finish_update update
  update_in_transaction_lem id input existing db db' response h =
      let written = update p call ctx id input.version (update_data call ctx input) db in
      let (task, found, rest) = or_stale_ok written (finish_update p call ctx input existing) h in
      let assignee = new_assignee input.assigned_to existing.assigned_to task.assigned_to in
      let (db'', sent, done) =
        bind_ok (write_assigned_outbox p call ctx task assignee written.1) _ rest in
      cc (write_assigned_outbox_keeps task assignee written.1 db'' sent)

  pub close_in_transaction_lem :
      (id : String) (input : CloseRemediationTaskBody) (db db' : Db p)
      (response : RemediationTaskResponse)
      → close_in_transaction p call ctx id input db ≡ ok (response, db')
      → db' ≡ record db {
        tasks = updated id input.version (close_data call input) db;
        outbox = db'.outbox;
      }
  unfolding close_in_transaction update
  close_in_transaction_lem id input db db' response h = ground arith
