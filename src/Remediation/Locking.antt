-- ===== src/Remediation/Locking.antt =====
-- Optimistic locking and tenancy of src/modules/remediation.
use dpdpos_backend.Prelude.{
  ℕ, String, ◌≡◌, ◌≢◌, refl, sym, subst, ◌∙◌, false, Option, none, some, arith, ap,
}
use dpdpos_backend.Shared.Errors.{ok, err, Thrown, app, conflicting_state}
use dpdpos_backend.Shared.Context.{RequestContext, Call}
use dpdpos_backend.Shared.Transaction.{
  with_transaction, checked_ok, checked_err, with_transaction_ok, or_stale_ok, stale_version,
}
use dpdpos_backend.Database.Versioned.{optimistic_update, at_version, row-other, update_once}
use dpdpos_backend.Database.Prisma.{Prisma, Db}
use dpdpos_backend.Remediation.Types.{
  RemediationTask, RemediationTaskResponse, UpdateRemediationTaskDto, CloseRemediationTaskBody,
}
use dpdpos_backend.Remediation.Repository.{
  UpdateRemediationTaskData, task_columns, write_task, update,
}
use dpdpos_backend.Remediation.Inputs.{update_data, close_data}
use dpdpos_backend.Remediation.Service.{
  update_checks, update_in_transaction, update_task, finish_update, close_checks,
  close_in_transaction, close_task,
}
use dpdpos_backend.Remediation.Writes.{
  write_task-IsVersionedWrite, updated, update_in_transaction_lem,
}
use dpdpos_backend.Remediation.Effects.{TaskEffect, kept, added, edited}
use dpdpos_backend.Remediation.Runs.{Request, tenant_of, serve, serve_effect, differs}

other_tenant :
    (p : Prisma) (org id : String) (expected : ℕ) (r : RemediationTask)
    → r.organization_id ≢ org
    → at_version p.remediation_task task_columns org id expected r ≡ false
unfolding at_version
other_tenant p org id expected r h = ground (arith, differs r.organization_id org h)

module _ (p : Prisma) where
  open p use {remediation_task}

  effect_isolated :
      (org : String) (read db db' : Db p)
      → TaskEffect p org read db db'
      → (k : String) (r : RemediationTask) → remediation_task.row db.tasks k ≡ some r
      → r.organization_id ≢ org
      → remediation_task.row db'.tasks k ≡ some r
  effect_isolated org read db db' (kept same) k r e h = rw same e
  effect_isolated org read db db' (added s made new own) k r e h =
      rw (remediation_task.row-create s db.tasks db'.tasks made k) (
        rw
          (differs s.id k
            (λ same. cc (remediation_task.create_fresh s db.tasks db'.tasks made, e, same)))
          e)
  effect_isolated org read db db' (edited call ctx id expected d own allowed e') k r e h = rw e' (
      row-other remediation_task task_columns ctx.organization_id id expected
        (write_task call ctx d) (write_task-IsVersionedWrite p call ctx d) db.tasks k r e
        (other_tenant p ctx.organization_id id expected r (λ same. h (same ∙ own))))

  -- A request in the name of one organization leaves every task of another one as it is.
  pub serve_isolated :
      (q : Request) (read db : Db p) (k : String) (r : RemediationTask)
      → remediation_task.row db.tasks k ≡ some r
      → r.organization_id ≢ tenant_of q
      → remediation_task.row (serve p q read db).tasks k ≡ some r
  serve_isolated q read db =
      effect_isolated (tenant_of q) read db (serve p q read db) (serve_effect p q read db)

  abbrev write_of :
      Call → RequestContext → String → ℕ → UpdateRemediationTaskData → Db p → Option RemediationTask
  write_of call ctx id expected d db =
      (optimistic_update remediation_task task_columns ctx.organization_id id expected
        (write_task call ctx d) db.tasks).0

  wrote_row :
      (call : Call) (ctx : RequestContext) (id : String) (input : UpdateRemediationTaskDto)
      (existing : RemediationTask) (db : Db p) (r : RemediationTaskResponse × Db p)
      → update_in_transaction p call ctx id input existing db ≡ ok r
      → (s : RemediationTask) × (write_of call ctx id input.version (update_data call ctx input) db
          ≡ some s)
        × (finish_update p call ctx input existing s (record db {
          tasks = updated p call ctx id input.version (update_data call ctx input) db;
        })
            ≡ ok r)
  unfolding update_in_transaction update
  wrote_row call ctx id input existing db r h = or_stale_ok _ _ h

  update_wrote :
      (call : Call) (ctx : RequestContext) (id : String) (input : UpdateRemediationTaskDto)
      (read db : Db p) (response : RemediationTaskResponse)
      → (update_task p call ctx id input read db).0 ≡ ok response
      → ((s : RemediationTask) × (write_of call ctx id input.version (update_data call ctx input) db
            ≡ some s))
        × ((update_task p call ctx id input read db).1.tasks
            ≡ updated p call ctx id input.version (update_data call ctx input) db)
  unfolding update_task
  update_wrote call ctx id input read db response h =
      let (existing, passed, e) =
        checked_ok (update_checks p ctx id input read)
          (λ existing. with_transaction (update_in_transaction p call ctx id input existing)) db
          h in
      let (db', done, f) =
        with_transaction_ok (update_in_transaction p call ctx id input existing) db
          (ap (λ r. r.0) (sym e) ∙ h) in
      let (s, found, rest) = wrote_row call ctx id input existing db (response, db') done in
      (
        (s, found),
        ap (λ r. r.1.tasks) (e ∙ f)
            ∙ ap (λ (d : Db p). d.tasks)
                (update_in_transaction_lem p call ctx id input existing db db' response done),
      )

  stale_update :
      (call : Call) (ctx : RequestContext) (id : String) (input : UpdateRemediationTaskDto)
      (read db : Db p)
      → write_of call ctx id input.version (update_data call ctx input) db ≡ none
      → (e : Thrown) × (update_task p call ctx id input read db ≡ (err e, db))
  unfolding update_task update_in_transaction update
  stale_update call ctx id input read db h =
      checked_err (update_checks p ctx id input read)
        (λ existing. update_in_transaction p call ctx id input existing) db
        (λ existing. (app (conflicting_state stale_version), rw (h, update_in_transaction) refl))

  stale_close :
      (call : Call) (ctx : RequestContext) (id : String) (input : CloseRemediationTaskBody)
      (read db : Db p)
      → write_of call ctx id input.version (close_data call input) db ≡ none
      → (e : Thrown) × (close_task p call ctx id input read db ≡ (err e, db))
  unfolding close_task close_in_transaction update
  stale_close call ctx id input read db h =
      checked_err (close_checks p ctx id read) (λ _. close_in_transaction p call ctx id input) db
        (λ _. (app (conflicting_state stale_version), rw (h, close_in_transaction) refl))

  module _ (call call' : Call) (ctx ctx' : RequestContext) (id : String)
      (input : UpdateRemediationTaskDto) (read read' db : Db p) (response : RemediationTaskResponse)
      (won : (update_task p call ctx id input read db).0 ≡ ok response) where
    lost :
        (d : UpdateRemediationTaskData) (expected : ℕ)
        → expected ≡ input.version
        → write_of call' ctx' id expected d (update_task p call ctx id input read db).1 ≡ none
    lost d expected same =
        let ((s, found), after) = update_wrote call ctx id input read db response won in
        rw same (
          subst
            (λ t.
              (optimistic_update remediation_task task_columns ctx'.organization_id id input.version
                (write_task call' ctx' d) t).0
              ≡ none)
            (sym after)
            (update_once remediation_task task_columns ctx.organization_id ctx'.organization_id id
              input.version (write_task call ctx (update_data call ctx input))
              (write_task call' ctx' d)
              (write_task-IsVersionedWrite p call ctx (update_data call ctx input))
              (write_task-IsVersionedWrite p call' ctx' d) db.tasks s found))

    -- After an update that succeeded, an update and a closing of the same task that expect the
    -- version which that update expected both fail, whatever their checks read, and leave the
    -- database as the first update left it: no write is lost.
    pub no_lost_update :
        (input' : UpdateRemediationTaskDto) (body : CloseRemediationTaskBody)
        → input'.version ≡ input.version
        → body.version ≡ input.version
        → let db' = (update_task p call ctx id input read db).1 in
          ((e : Thrown) × (update_task p call' ctx' id input' read' db' ≡ (err e, db')))
          × ((e : Thrown) × (close_task p call' ctx' id body read' db' ≡ (err e, db')))
    no_lost_update input' body same same' = (
      stale_update call' ctx' id input' read' (update_task p call ctx id input read db).1
          (lost (update_data call' ctx' input') input'.version same),
      stale_close call' ctx' id body read' (update_task p call ctx id input read db).1
          (lost (close_data call' body) body.version same'),
    )
