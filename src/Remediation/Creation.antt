-- ===== src/Remediation/Creation.antt =====
-- What the two operations that create remediation tasks can do to the task table.

use dpdpos_backend.Prelude.{
  String, JsText, ◌≡◌, refl, sym, subst, ◌∙◌, ◌⊎◌, inl, inr, Option, none, some, arith, ap, truthy,
}
use dpdpos_backend.Shared.Errors.{ok, bind_ok}
use dpdpos_backend.Shared.Context.{RequestContext, Call}
use dpdpos_backend.Shared.Transaction.{
  with_transaction, with_transaction_cases, checked_cases, on_created_ok,
}
use dpdpos_backend.Database.Prisma.{Prisma, Db}
use dpdpos_backend.Remediation.Lifecycle.{pending}
use dpdpos_backend.Remediation.Types.{
  RemediationTask, RemediationTaskResponse, CreateRemediationTaskDto, ViolationCreatedPayload,
}
use dpdpos_backend.Remediation.Repository.{
  CreateRemediationTaskData, new_task, create, find_auto_task_by_violation, find_violation,
}
use dpdpos_backend.Remediation.Inputs.{manual_data, auto_data}
use dpdpos_backend.Remediation.Service.{
  create_checks, finish_create, create_in_transaction, create_task, auto_task_in_transaction,
  raced_task, auto_task_unless_found, unless_missing, for_violation, create_from_violation_created,
  write_assigned_outbox,
}
use dpdpos_backend.Remediation.Writes.{write_assigned_outbox_keeps}
use dpdpos_backend.Remediation.Effects.{TaskEffect, kept, added}

module _ (p : Prisma) (call : Call) (ctx : RequestContext) where
  open p use {remediation_task}

  pub create_lem :
      (input : CreateRemediationTaskData) (db db' : Db p) (task : RemediationTask)
      → create p call ctx input db ≡ some (task, db')
      → (task ≡ new_task call ctx input)
        × (remediation_task.create (new_task call ctx input) db.tasks ≡ some db'.tasks)
        × (db' ≡ record db { tasks = db'.tasks })
  unfolding create
  create_lem input db db' task h = ground arith

  pub create_in_transaction_lem :
      (input : CreateRemediationTaskDto) (db db' : Db p) (response : RemediationTaskResponse)
      → create_in_transaction p call ctx input db ≡ ok (response, db')
      → remediation_task.create (new_task call ctx (manual_data input)) db.tasks ≡ some db'.tasks
  unfolding create_in_transaction finish_create
  create_in_transaction_lem input db db' response h =
      elim (on_created_ok (create p call ctx (manual_data input) db) _ (finish_create p call ctx)
        h) [
          | inl (e, bad) ↦ cc bad
          | inr (task, db1, e, rest) ↦
              let (db2, sent, done) =
                bind_ok (write_assigned_outbox p call ctx task task.assigned_to db1) _ rest in
              ground (
                arith,
                create_lem (manual_data input) db db1 task e,
                write_assigned_outbox_keeps p call ctx task task.assigned_to db1 db2 sent,
              )
        ]

  pub auto_task_in_transaction_lem :
      (violation_id : String) (title : Option JsText) (db db' : Db p)
      (response : Option RemediationTaskResponse)
      → auto_task_in_transaction p call ctx violation_id title db ≡ ok (response, db')
      → (db'.tasks ≡ db.tasks)
        ⊎ (remediation_task.create (new_task call ctx (auto_data violation_id title)) db.tasks
            ≡ some db'.tasks)
  unfolding auto_task_in_transaction raced_task
  auto_task_in_transaction_lem violation_id title db db' response h =
      elim (on_created_ok (create p call ctx (auto_data violation_id title) db) _ _ h) [
        | inl (e, raced) ↦
            let (found, read, done) =
              bind_ok (find_auto_task_by_violation p ctx.organization_id violation_id db) _ raced in
            inl (ground arith)
        | inr (task, db1, e, rest) ↦
            inr (ground (arith, create_lem (auto_data violation_id title) db db1 task e))
      ]

  new_task-pending :
      (input : CreateRemediationTaskData) → (new_task call ctx input).status ≡ pending
  unfolding new_task
  new_task-pending input = refl

  new_task-tenant :
      (input : CreateRemediationTaskData)
      → (new_task call ctx input).organization_id ≡ ctx.organization_id
  unfolding new_task
  new_task-tenant input = refl

  -- Manual creation.
  pub create_task_effect :
      (input : CreateRemediationTaskDto) (read db : Db p)
      → TaskEffect p ctx.organization_id read db (create_task p call ctx input read db).1
  unfolding create_task
  create_task_effect input read db =
      elim (checked_cases (create_checks p ctx input read)
        (λ _. with_transaction (create_in_transaction p call ctx input)) db) [
          | inl same ↦ kept (ap (λ (d : Db p). d.tasks) same)
          | inr (u, passed, e) ↦
              elim (with_transaction_cases (create_in_transaction p call ctx input) db) [
                | inl same ↦ kept (ap (λ (d : Db p). d.tasks) (ap (λ r. r.1) e ∙ same))
                | inr (response, db', done, f) ↦
                    added (new_task call ctx (manual_data input))
                      (create_in_transaction_lem input db db' response done
                        ∙ ap (λ r. some (r.1.tasks)) (sym (e ∙ f)))
                      (new_task-pending _) (new_task-tenant _)
              ]
        ]

  auto_task_unless_found_effect :
      (violation_id : String) (title : Option JsText) (found : Option RemediationTask)
      (read db : Db p)
      → TaskEffect p ctx.organization_id read db
          (auto_task_unless_found p call ctx violation_id title read found db).1
  unfolding auto_task_unless_found
  auto_task_unless_found_effect violation_id title (some task) read db = kept refl
  auto_task_unless_found_effect violation_id title none read db =
      elim (find_violation p ctx.organization_id violation_id read)
        as (λ o.
          TaskEffect p ctx.organization_id read db
            (unless_missing p call ctx violation_id title o db).1) [
              | none ↦ kept refl
              | some v ↦
                  elim (with_transaction_cases
                    (auto_task_in_transaction p call ctx violation_id title) db) [
                      | inl same ↦ kept (ap (λ (d : Db p). d.tasks) same)
                      | inr (response, db', done, f) ↦
                          elim (auto_task_in_transaction_lem violation_id title db db' response
                            done) [
                              | inl same ↦ kept (ap (λ r. r.1.tasks) f ∙ same)
                              | inr made ↦
                                  added (new_task call ctx (auto_data violation_id title))
                                    (made ∙ ap (λ r. some (r.1.tasks)) (sym f)) (new_task-pending _)
                                    (new_task-tenant _)
                            ]
                    ]
            ]

  -- The handler of ViolationCreated.
  pub create_from_violation_created_effect :
      (payload : ViolationCreatedPayload) (read db : Db p)
      → TaskEffect p ctx.organization_id read db
          (create_from_violation_created p call ctx payload read db).1
  unfolding create_from_violation_created
  create_from_violation_created_effect payload read db =
      elim (truthy payload.violation_id)
        as (λ o.
          TaskEffect p ctx.organization_id read db
            (for_violation p call ctx payload.title read o db).1) [
              | none ↦ kept refl
              | some violation_id ↦
                  elim (checked_cases
                    (find_auto_task_by_violation p ctx.organization_id violation_id read)
                    (auto_task_unless_found p call ctx violation_id payload.title read) db) [
                      | inl same ↦ kept (ap (λ (d : Db p). d.tasks) same)
                      | inr (found, passed, e) ↦
                          subst (λ r. TaskEffect p ctx.organization_id read db r.1) (sym e)
                            (auto_task_unless_found_effect violation_id payload.title found read db)
                    ]
            ]
