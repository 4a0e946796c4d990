-- ===== src/Examples/Services.antt =====
-- A small database of lists, and the theorems at work on it: src/modules/remediation and
-- src/modules/violations for one organization with a user and two violations.
use dpdpos_backend.Prelude.{
  String, ◌≡◌, ◌≢◌, refl, literal, false, true, none, some, undefined, value, [], ◌∷◌, eq_iff, Memᴰ,
  subst, trim_start, is_space, truthy,
}
use dpdpos_backend.Shared.Errors.{ok, err, Thrown}
use dpdpos_backend.Shared.Context.{RequestContext, Call}
use dpdpos_backend.Shared.Tenant.{require_organization_id}
use dpdpos_backend.Database.ListTable.{list_table}
use dpdpos_backend.Database.Rows.{get, first, Memᴰ-get, key-get}
use dpdpos_backend.Database.Prisma.{Prisma, Db, user_key, result_key, rule_key, no_clash}
use dpdpos_backend.Outbox.Events.{
  write_outbox_event, new_outbox_event, event_of, violation_closed as event_violation_closed,
  outbox_key, outbox_clash,
}
use dpdpos_backend.Remediation.Lifecycle.{
  pending_verification, verified, can_transition, is_terminal,
}
use dpdpos_backend.Remediation.Types.{
  RemediationTask, manual, task_key, task_clash, UpdateRemediationTaskDto,
  to_remediation_task_response, CloseRemediationTaskBody, ViolationCreatedPayload,
}
use dpdpos_backend.Remediation.Service.{
  update_task, close_task, update_checks, require_task, update_in_transaction, finish_update,
  write_assigned_outbox,
}
use dpdpos_backend.Remediation.Repository.{
  write_task, find_by_id, new_task, find_auto_task_by_violation, find_violation as violation_of,
  create as create_row,
}
use dpdpos_backend.Remediation.Inputs.{update_data, check_transition, new_assignee, auto_data}
use dpdpos_backend.Database.Versioned.{optimistic_update, at_version, is_live}
use dpdpos_backend.Shared.Users.{assert_assignee_in_organization}
use dpdpos_backend.Remediation.Repository.{update as write_row}
use dpdpos_backend.Database.ByTenant.{find_in_tenant}
use dpdpos_backend.Shared.Tenant.{tenant_where}
use dpdpos_backend.Remediation.Runs.{
  Run, here, step, Request, violation_created, update, serve, Grows, run-Grows,
}
use dpdpos_backend.Remediation.Verification.{needs_stamp, AllStamped, run-AllStamped}
use dpdpos_backend.Remediation.Dedupe.{IsDeduplicated}
use dpdpos_backend.Remediation.Deliveries.{HasOnlyTask, delivery_leaves_one}
use dpdpos_backend.Remediation.Types.{auto}
use dpdpos_backend.Remediation.Redelivery.{is_auto_task_of, redelivery_writes_nothing}
use dpdpos_backend.Remediation.Service.{
  create_from_violation_created, auto_task_unless_found, auto_task_in_transaction, raced_task,
}
use dpdpos_backend.Remediation.Locking.{serve_isolated, no_lost_update}
use dpdpos_backend.Violations.Lifecycle.{validated, closed}
use dpdpos_backend.Violations.Types.{
  Violation, UpdateViolationDto, CloseViolationBody, high, violation_key, violation_clash,
  to_violation_response,
}
use dpdpos_backend.Violations.Repository.{
  write_violation, find_by_id as find_violation, update as write_violation_row,
}
use dpdpos_backend.Violations.Inputs.{
  require_validated, close_data, closed_payload, update_data as update_violation_data,
}
use dpdpos_backend.Violations.Service.{
  close_violation, update_violation, close_checks, close_in_transaction, require_violation, publish,
}
use dpdpos_backend.Violations.Closing.{update_closes_silently, close_publishes}
use dpdpos_backend.Rights.Types.{request_key}

abbrev pub lists : Prisma
lists = record {
  remediation_task = list_table task_key task_clash;
  violation = list_table violation_key violation_clash;
  data_subject_request = list_table request_key no_clash;
  user = list_table user_key no_clash;
  validation_result = list_table result_key no_clash;
  validation_rule = list_table rule_key no_clash;
  outbox_event = list_table outbox_key outbox_clash;
}

abbrev pub officer : RequestContext
officer = record {
  correlation_id = "c-1";
  organization_id = "org-1";
  actor_user_id = "user-1";
  permissions = [];
  roles = [];
}

abbrev pub morning : Call
morning = record { now = 1000; new_id = "new-1"; event_id = "event-1" }

abbrev pub noon : Call
noon = record { now = 2000; new_id = "new-2"; event_id = "event-2" }

abbrev pub task_1 : RemediationTask
task_1 = record {
  id = "task-1";
  organization_id = "org-1";
  violation_id = "violation-1";
  source = manual;
  task_title = literal "Encrypt the backups";
  task_description = none;
  status = pending_verification;
  assigned_to = none;
  due_at = none;
  verified_at = none;
  verified_by = none;
  closed_at = none;
  verification_notes = none;
  resolution_summary = none;
  version = 3;
  created_by = some "user-1";
  updated_by = some "user-1";
  created_at = 10;
  updated_at = 20;
  deleted_at = none;
}

abbrev pub violation_1 : Violation
violation_1 = record {
  id = "violation-1";
  organization_id = "org-1";
  validation_result_id = none;
  source_key = none;
  severity = high;
  title = literal "Backups are not encrypted";
  description = none;
  status = validated;
  assigned_to = none;
  opened_at = 5;
  due_at = none;
  closed_at = none;
  resolution_summary = none;
  evidence_required_flag = false;
  version = 4;
  created_by = some "user-1";
  updated_by = some "user-1";
  created_at = 5;
  updated_at = 6;
  deleted_at = none;
}

abbrev pub start : Db lists
unfolding list_table
start = record {
  tasks = (task_1 ∷ [], ((tt, tt)));
  violations = (violation_1 ∷ [], ((tt, tt)));
  requests = ([], tt);
  users = ([], tt);
  results = ([], tt);
  rules = ([], tt);
  outbox = ([], tt);
}

abbrev pub created_event : ViolationCreatedPayload
created_event = record { violation_id = some "violation-1"; title = some (literal "Backups") }

abbrev pub verification : UpdateRemediationTaskDto
verification = record {
  version = 3;
  task_title = none;
  task_description = undefined;
  status = some verified;
  assigned_to = undefined;
  due_at = undefined;
  verification_notes = value (literal "seen");
  resolution_summary = undefined;
}

abbrev pub late_closing : CloseRemediationTaskBody
late_closing = record { version = 3; resolution_summary = literal "done" }

abbrev first_delivery : Request
first_delivery = violation_created morning officer created_event

abbrev second_delivery : Request
second_delivery = violation_created noon officer created_event

-- Two deliveries of one event, both of which read the start; then the manual task is verified.
abbrev after_first : Db lists
after_first = serve lists first_delivery start start

abbrev after_second : Db lists
after_second = serve lists second_delivery start after_first

abbrev after_verification : Db lists
after_verification =
    serve lists (update noon officer "task-1" verification) after_second after_second

abbrev first_run : Run lists start (start ∷ []) after_first
first_run = step here (Memᴰ.head refl) first_delivery refl

abbrev deliveries : Run lists start (after_first ∷ start ∷ []) after_second
deliveries = step first_run (Memᴰ.tail (Memᴰ.head refl)) second_delivery refl

abbrev day : Run lists start (after_second ∷ after_first ∷ start ∷ []) after_verification
day = step deliveries (Memᴰ.head refl) (update noon officer "task-1" verification) refl

only_task :
    (k : String) (r : RemediationTask)
    → lists.remediation_task.row start.tasks k ≡ some r
    → (r ≡ task_1) × (r.id ≡ k)
unfolding list_table
only_task k r e = elim (Memᴰ-get task_key (task_1 ∷ []) k r e) [
  | Memᴰ.head q ↦ (q, key-get task_key (task_1 ∷ []) k r e)
  | Memᴰ.tail m ↦ elim m [ ]
]

start-AllStamped : AllStamped lists start
start-AllStamped k r e h =
    cc (subst (λ (t : RemediationTask). needs_stamp t.status ≡ true) (only_task k r e).0 h)

start-IsDeduplicated : IsDeduplicated lists start
start-IsDeduplicated k l r s e e' h =
    let (a, b) = only_task k r e in let (c, d) = only_task l s e' in cc (a, b, c, d)

abbrev verified_task : RemediationTask
verified_task = write_task noon officer (update_data noon officer verification) task_1

verification_succeeds :
    (update_task lists noon officer "task-1" verification start start).0
    ≡ ok (to_remediation_task_response verified_task)
unfolding update_task update_checks require_task find_by_id find_in_tenant require_organization_id
    tenant_where list_table get trim_start is_space first update_in_transaction update_data
    assert_assignee_in_organization check_transition is_terminal can_transition write_row at_version
    is_live write_task finish_update write_assigned_outbox new_assignee
verification_succeeds = refl

abbrev silent_closing : UpdateViolationDto
silent_closing = record {
  version = 4;
  title = none;
  description = undefined;
  severity = none;
  status = some closed;
  assigned_to = undefined;
  due_at = undefined;
  resolution_summary = undefined;
}

abbrev proper_closing : CloseViolationBody
proper_closing = record { version = 4; resolution_summary = literal "fixed" }

abbrev closed_violation : Violation
closed_violation = write_violation morning officer (close_data morning proper_closing) violation_1

closing_succeeds :
    (close_violation lists morning officer "violation-1" proper_closing start start).0
    ≡ ok (to_violation_response closed_violation)
unfolding close_violation close_checks require_violation find_violation find_in_tenant
    require_organization_id trim_start is_space list_table get require_validated
    close_in_transaction write_violation_row optimistic_update at_version is_live write_violation
    publish write_outbox_event new_outbox_event start
closing_succeeds = refl

abbrev stranger : RequestContext
stranger = record officer { organization_id = "org-2" }

not_strangers : task_1.organization_id ≢ stranger.organization_id
not_strangers e = cc ((eq_iff "org-1" "org-2").1 e)

run-AllStamped_example : AllStamped lists after_verification
run-AllStamped_example =
    run-AllStamped lists start (after_second ∷ after_first ∷ start ∷ []) after_verification day
      start-AllStamped

run-Grows_example : Grows lists start after_verification
run-Grows_example =
    run-Grows lists start start (after_second ∷ after_first ∷ start ∷ []) after_verification day
      (Memᴰ.tail (Memᴰ.tail (Memᴰ.tail (Memᴰ.head refl))))

-- The task of the first delivery, which the second one answers with: its checks saw the start.
abbrev first_task : RemediationTask
first_task = new_task morning officer (auto_data "violation-1" (some (literal "Backups")))

second_answer :
    (create_from_violation_created lists noon officer created_event start after_first).0
    ≡ ok (some (to_remediation_task_response first_task))
unfolding create_from_violation_created truthy find_auto_task_by_violation require_organization_id
    trim_start is_space auto_task_unless_found list_table violation_of auto_task_in_transaction
    create_row serve auto_data raced_task
second_answer = refl

delivery_leaves_one_example :
    HasOnlyTask lists "org-1" "violation-1" "new-1"
      (create_from_violation_created lists noon officer created_event start after_first).1
unfolding truthy to_remediation_task_response new_task
delivery_leaves_one_example =
    delivery_leaves_one lists start start (start ∷ []) after_first first_run start-IsDeduplicated
      (Memᴰ.tail (Memᴰ.head refl)) noon officer created_event "violation-1"
      (to_remediation_task_response first_task) refl second_answer

serve_isolated_example :
    lists.remediation_task.row
      (serve lists (update noon stranger "task-1" verification) start start).tasks
      "task-1"
    ≡ some task_1
unfolding list_table get
serve_isolated_example =
    serve_isolated lists (update noon stranger "task-1" verification) start start "task-1" task_1
      refl not_strangers

no_lost_update_example :
    let db' = (update_task lists noon officer "task-1" verification start start).1 in
    ((e : Thrown) × (update_task lists morning officer "task-1" verification start db'
        ≡ (err e, db')))
    × ((e : Thrown) × (close_task lists morning officer "task-1" late_closing start db'
          ≡ (err e, db')))
no_lost_update_example =
    no_lost_update lists noon morning officer officer "task-1" verification start start start
      (to_remediation_task_response verified_task) verification_succeeds verification late_closing
      refl refl

update_closes_silently_example :
    let (result, db') =
      update_violation lists noon officer "violation-1" silent_closing start start in
    let v' = write_violation noon officer (update_violation_data silent_closing) violation_1 in
    (result ≡ ok (to_violation_response v'))
    × (lists.violation.row db'.violations "violation-1" ≡ some v')
    × (v'.status ≡ closed)
    × (v'.closed_at ≡ none)
    × (db' ≡ record start { violations = db'.violations })
unfolding list_table get require_organization_id trim_start is_space
update_closes_silently_example =
    update_closes_silently lists noon officer "violation-1" violation_1 start refl refl refl refl
      silent_closing refl refl refl refl

close_publishes_example :
    let db' = (close_violation lists morning officer "violation-1" proper_closing start start).1 in
    (v : Violation) × (lists.violation.row db'.violations "violation-1" ≡ some v)
    × (to_violation_response closed_violation ≡ to_violation_response v)
    × (v.status ≡ closed)
    × (v.closed_at ≡ some 1000)
    × (v.resolution_summary ≡ some (literal "fixed"))
    × (v.version ≡ 5)
    × (lists.outbox_event.row start.outbox "event-1" ≡ none)
    × (lists.outbox_event.row db'.outbox "event-1"
        ≡ some (
            new_outbox_event morning
              (event_of officer event_violation_closed (closed_payload morning v))))
close_publishes_example =
    close_publishes lists morning officer "violation-1" proper_closing start start
      (to_violation_response closed_violation) closing_succeeds

officer_has_organization : require_organization_id "org-1" ≡ ok "org-1"
unfolding require_organization_id trim_start is_space
officer_has_organization = refl

abbrev auto_task : RemediationTask
auto_task = record task_1 { source = auto }

abbrev delivered : Db lists
unfolding list_table
delivered = record start { tasks = (auto_task ∷ [], ((tt, tt))) }

redelivery_writes_nothing_example :
    (s : RemediationTask) × (lists.remediation_task.row delivered.tasks s.id ≡ some s)
    × (is_auto_task_of lists noon officer officer_has_organization "violation-1" s ≡ true)
    × (create_from_violation_created lists noon officer created_event delivered start
        ≡ (ok (some (to_remediation_task_response s)), start))
unfolding list_table get truthy start delivered
redelivery_writes_nothing_example =
    redelivery_writes_nothing lists noon officer officer_has_organization created_event
      "violation-1" "task-1" auto_task delivered start refl refl refl
