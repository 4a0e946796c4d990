-- ===== src/Remediation/Service.antt =====
-- src/modules/remediation/services/remediation-task.service.ts. An operation that checks before it
-- opens its transaction is given two states: the one that the checks read, and the one that the
-- transaction meets, which other requests may have changed meanwhile. Log lines are left out.
use dpdpos_backend.Prelude.{String, JsText, literal, Option, none, some, List, map, truthy, given}
use mathlib.Core.Option
use dpdpos_backend.Shared.Errors.{Result, ok, err, app, unexpected, missing_resource, ◌>>=◌, ◌>>◌}
use dpdpos_backend.Shared.Context.{RequestContext, Call}
use dpdpos_backend.Shared.Transaction.{with_transaction, checked, or_stale, on_created}
use dpdpos_backend.Outbox.Events.{
  event_of, write_outbox_event, remediation_completed, remediation_task_assigned,
}
use dpdpos_backend.Database.Prisma.{Prisma, Db}
use dpdpos_backend.Violations.Types.{Violation}
use dpdpos_backend.Remediation.Types.{
  RemediationTask, RemediationTaskResponse, to_remediation_task_response, CreateRemediationTaskDto,
  UpdateRemediationTaskDto, CloseRemediationTaskBody, ListRemediationTasksQuery,
  ViolationCreatedPayload,
}
use dpdpos_backend.Remediation.Repository.{
  find_by_id, find_auto_task_by_violation, list_tasks, create, update, find_violation,
}
use dpdpos_backend.Shared.Users.{assert_assignee_in_organization}
use dpdpos_backend.Remediation.Inputs.{
  manual_data, auto_data, assigned_payload, completed_payload, update_data, close_data,
  new_assignee, check_transition, require_verified,
}

module _ (p : Prisma) where
  unfoldable pub assert_violation_in_organization :
      RequestContext → String → Db p → Result (Unit {0})
  assert_violation_in_organization ctx violation_id db =
      elim (find_violation p ctx.organization_id violation_id db) [
        | none ↦ err (app (missing_resource (literal "Violation not found")))
        | some v ↦ ok tt
      ]

  -- `existing`, or the error that it is missing.
  unfoldable pub require_task : RequestContext → String → Db p → Result RemediationTask
  require_task ctx id db = find_by_id p ctx.organization_id id db >>= elim [
    | none ↦ err (app (missing_resource (literal "Remediation task not found")))
    | some task ↦ ok task
  ]

  unfoldable pub write_assigned_outbox :
      Call → RequestContext → RemediationTask → Option String → Db p → Result (Db p)
  unfolding truthy write_outbox_event event_of assigned_payload
  write_assigned_outbox call ctx task assignee db = elim (truthy assignee) [
    | none ↦ ok db
    | some u ↦
        write_outbox_event p.outbox_event call
          (event_of ctx remediation_task_assigned (assigned_payload call task u)) db.outbox
        >>= λ outbox. ok (record db { outbox = outbox })
  ]

  -- Manual creation of a task for a violation.
  unfoldable pub create_checks :
      RequestContext → CreateRemediationTaskDto → Db p → Result (Unit {0})
  create_checks ctx input db = do
    assert_violation_in_organization ctx input.violation_id db
    assert_assignee_in_organization p ctx input.assigned_to db

  unfoldable pub finish_create :
      Call → RequestContext → RemediationTask → Db p → Result (RemediationTaskResponse × Db p)
  finish_create call ctx task db =
      write_assigned_outbox call ctx task task.assigned_to db >>= λ db'.
      ok (to_remediation_task_response task, db')

  unfoldable pub create_in_transaction :
      Call
      → RequestContext
      → CreateRemediationTaskDto
      → Db p
      → Result (RemediationTaskResponse × Db p)
  create_in_transaction call ctx input db =
      on_created (create p call ctx (manual_data input) db) (err unexpected)
        (finish_create call ctx)

  unfoldable pub create_task :
      Call
      → RequestContext
      → CreateRemediationTaskDto
      → Db p
      → Db p
      → Result RemediationTaskResponse × Db p
  create_task call ctx input read db =
      checked (create_checks ctx input read)
        (λ _. with_transaction (create_in_transaction call ctx input)) db

  -- The AUTO task of a violation, created once.
  -- A violated unique index means that another delivery of the event has created the task.
  unfoldable pub raced_task :
      RequestContext → String → Db p → Result (Option RemediationTaskResponse × Db p)
  raced_task ctx violation_id db =
      find_auto_task_by_violation p ctx.organization_id violation_id db >>= λ raced.
      ok (Option.map to_remediation_task_response raced, db)

  unfoldable pub auto_task_in_transaction :
      Call
      → RequestContext
      → String
      → Option JsText
      → Db p
      → Result (Option RemediationTaskResponse × Db p)
  auto_task_in_transaction call ctx violation_id title db =
      on_created (create p call ctx (auto_data violation_id title) db)
        (raced_task ctx violation_id db)
        (λ task db'. ok (some (to_remediation_task_response task), db'))

  unfoldable pub unless_missing :
      Call
      → RequestContext
      → String
      → Option JsText
      → Option Violation
      → Db p
      → Result (Option RemediationTaskResponse) × Db p
  unless_missing call ctx violation_id title none db = (ok none, db)
  unless_missing call ctx violation_id title (some violation) db =
      with_transaction (auto_task_in_transaction call ctx violation_id title) db

  unfoldable pub auto_task_unless_found :
      Call
      → RequestContext
      → String
      → Option JsText
      → Db p
      → Option RemediationTask
      → Db p
      → Result (Option RemediationTaskResponse) × Db p
  unfolding unless_missing
  auto_task_unless_found call ctx violation_id title read (some existing) db =
      (ok (some (to_remediation_task_response existing)), db)
  auto_task_unless_found call ctx violation_id title read none db =
      unless_missing call ctx violation_id title
        (find_violation p ctx.organization_id violation_id read) db

  -- An event with no violation identifier is dropped.
  unfoldable pub for_violation :
      Call
      → RequestContext
      → Option JsText
      → Db p
      → Option String
      → Db p
      → Result (Option RemediationTaskResponse) × Db p
  for_violation call ctx title read none db = (ok none, db)
  for_violation call ctx title read (some violation_id) db =
      checked (find_auto_task_by_violation p ctx.organization_id violation_id read)
        (auto_task_unless_found call ctx violation_id title read) db

  unfoldable pub create_from_violation_created :
      Call
      → RequestContext
      → ViolationCreatedPayload
      → Db p
      → Db p
      → Result (Option RemediationTaskResponse) × Db p
  unfolding for_violation
  create_from_violation_created call ctx payload read db =
      for_violation call ctx payload.title read (truthy payload.violation_id) db

  unfoldable pub get_by_id : RequestContext → String → Db p → Result RemediationTaskResponse
  get_by_id ctx id db = require_task ctx id db >>= λ task. ok (to_remediation_task_response task)

  unfoldable pub list :
      RequestContext → ListRemediationTasksQuery → Db p → Result (List RemediationTaskResponse)
  list ctx options db = list_tasks p ctx.organization_id options db >>= λ tasks.
      ok (map to_remediation_task_response tasks)

  unfoldable pub update_checks :
      RequestContext → String → UpdateRemediationTaskDto → Db p → Result RemediationTask
  update_checks ctx id input db = do
    existing ← require_task ctx id db
    assert_assignee_in_organization p ctx (given input.assigned_to) db
    check_transition existing.status input.status
    ok existing

  -- What follows the write of an update: an event for a new assignee, and the response.
  unfoldable pub finish_update :
      Call
      → RequestContext
      → UpdateRemediationTaskDto
      → RemediationTask
      → RemediationTask
      → Db p
      → Result (RemediationTaskResponse × Db p)
  finish_update call ctx input existing task db =
      write_assigned_outbox call ctx task
        (new_assignee input.assigned_to existing.assigned_to task.assigned_to) db
      >>= λ db'. ok (to_remediation_task_response task, db')

  unfoldable pub update_in_transaction :
      Call
      → RequestContext
      → String
      → UpdateRemediationTaskDto
      → RemediationTask
      → Db p
      → Result (RemediationTaskResponse × Db p)
  update_in_transaction call ctx id input existing db =
      or_stale (update p call ctx id input.version (update_data call ctx input) db)
        (finish_update call ctx input existing)

  unfoldable pub update_task :
      Call
      → RequestContext
      → String
      → UpdateRemediationTaskDto
      → Db p
      → Db p
      → Result RemediationTaskResponse × Db p
  update_task call ctx id input read db =
      checked (update_checks ctx id input read)
        (λ existing. with_transaction (update_in_transaction call ctx id input existing)) db

  unfoldable pub close_checks : RequestContext → String → Db p → Result (Unit {0})
  close_checks ctx id db = do existing ← require_task ctx id db; require_verified existing.status

  unfoldable pub close_in_transaction :
      Call
      → RequestContext
      → String
      → CloseRemediationTaskBody
      → Db p
      → Result (RemediationTaskResponse × Db p)
  unfolding close_data write_outbox_event event_of completed_payload
  close_in_transaction call ctx id input db =
      or_stale (update p call ctx id input.version (close_data call input) db) λ task db'.
        write_outbox_event p.outbox_event call
          (event_of ctx remediation_completed (completed_payload call task)) db'.outbox
        >>= λ outbox. ok (to_remediation_task_response task, record db' { outbox = outbox })

  unfoldable pub close_task :
      Call
      → RequestContext
      → String
      → CloseRemediationTaskBody
      → Db p
      → Db p
      → Result RemediationTaskResponse × Db p
  close_task call ctx id input read db =
      checked (close_checks ctx id read)
        (λ _. with_transaction (close_in_transaction call ctx id input)) db
