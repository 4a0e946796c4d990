-- ===== src/Remediation/Inputs.antt =====
-- The pure parts of src/modules/remediation/services/remediation-task.service.ts: titles, payloads,
-- the changes that an operation writes, and the checks of a status.
use mathlib.Core.Option
use dpdpos_backend.Prelude.{
  String, JsText, literal, trim, take, is_nonempty, iso, time_of, ◌++◌, Bool, true, false, not,
  ◌&&◌, Option, none, some, [], ◌∷◌, Patch, value, undefined, null, patch, map_patch, is_some,
  str_eq, if◌then◌else◌,
}
use dpdpos_backend.Shared.Errors.{Result, ok, err, app, conflicting_state}
use dpdpos_backend.Shared.Context.{RequestContext, Call}
use dpdpos_backend.Outbox.Events.{Payload, string, free_text, date, optional}
use dpdpos_backend.Remediation.Lifecycle.{
  RemediationTaskStatus, verified, closed, status_text, can_transition, is_terminal,
}
use dpdpos_backend.Remediation.Types.{
  RemediationTask, UpdateRemediationTaskDto, CreateRemediationTaskDto, manual, auto,
  CloseRemediationTaskBody,
}
use dpdpos_backend.Remediation.Repository.{UpdateRemediationTaskData, CreateRemediationTaskData}

abbrev pub is_verified : RemediationTaskStatus → Bool
is_verified verified = true
is_verified _ = false

-- The title of an AUTO task: the trimmed title of the event, cut to 255 code units.
unfoldable pub safe_task_title : Option JsText → JsText
safe_task_title none = literal "Remediation required: violation"
safe_task_title (some title) =
    if is_nonempty (trim title)
    then take 255 (literal "Remediation required: " ++ trim title)
    else literal "Remediation required: violation"

unfoldable pub assigned_payload : Call → RemediationTask → String → Payload
unfolding optional
assigned_payload call task assigned_to =
    ("taskId", string task.id)
    ∷ ("violationId", string task.violation_id)
    ∷ ("assignedTo", string assigned_to)
    ∷ optional "dueAt" (Option.map (λ d. date (iso d)) task.due_at)
        (("assignedAt", date (iso call.now)) ∷ [])

unfoldable pub completed_payload : Call → RemediationTask → Payload
unfolding optional
completed_payload call task =
    ("taskId", string task.id)
    ∷ ("violationId", string task.violation_id)
    ∷ ("closedAt", date (iso (Option.get_or task.closed_at call.now)))
    ∷ ("verifiedAt", date (iso (Option.get_or task.verified_at call.now)))
    ∷ optional "verifiedBy" (Option.map string task.verified_by)
        (optional "resolutionSummary" (Option.map free_text task.resolution_summary) [])

-- The data of a manual task.
unfoldable pub manual_data : CreateRemediationTaskDto → CreateRemediationTaskData
manual_data input = record {
  violation_id = input.violation_id;
  source = manual;
  task_title = input.task_title;
  task_description = input.task_description;
  assigned_to = input.assigned_to;
  due_at = Option.map time_of input.due_at;
}

unfoldable pub auto_data : String → Option JsText → CreateRemediationTaskData
auto_data violation_id title = record {
  violation_id = violation_id;
  source = auto;
  task_title = safe_task_title title;
  task_description = none;
  assigned_to = none;
  due_at = none;
}

-- The changes that a lifecycle update writes.
unfoldable pub update_data :
    Call → RequestContext → UpdateRemediationTaskDto → UpdateRemediationTaskData
update_data call ctx input =
    let verifying = elim input.status as (λ _. Bool) [ none ↦ false | some s ↦ is_verified s ] in
    record {
      task_title = input.task_title;
      task_description = input.task_description;
      status = input.status;
      assigned_to = input.assigned_to;
      due_at = map_patch time_of input.due_at;
      verification_notes = input.verification_notes;
      resolution_summary = input.resolution_summary;
      verified_at = if verifying then some call.now else none;
      verified_by = if verifying then some ctx.actor_user_id else none;
      closed_at = none;
    }

unfoldable pub close_data : Call → CloseRemediationTaskBody → UpdateRemediationTaskData
close_data call input = record {
  task_title = none;
  task_description = undefined;
  status = some closed;
  assigned_to = undefined;
  due_at = undefined;
  verification_notes = undefined;
  resolution_summary = value input.resolution_summary;
  verified_at = none;
  verified_by = none;
  closed_at = some call.now;
}

-- `input.assignedTo !== undefined && input.assignedTo !== existing.assignedTo && task.assignedTo`:
-- the user to notify.
unfoldable pub new_assignee : Patch String → Option String → Option String → Option String
new_assignee undefined before after = none
new_assignee null before after = if is_some before then after else none
new_assignee (value u) none after = after
new_assignee (value u) (some old) after = if str_eq u old then none else after

-- The status checks of a lifecycle update.
unfoldable pub check_transition :
    RemediationTaskStatus → Option RemediationTaskStatus → Result (Unit {0})
check_transition from wanted =
    if is_terminal from
    then err (
        app (
          conflicting_state (
            literal "Remediation task is already "
            ++ (literal (status_text from) ++ literal " and cannot be updated"))))
    else if is_some wanted && not (can_transition from (patch wanted from))
    then err (
        app (
          conflicting_state (
            literal "Illegal transition "
            ++ (literal (status_text from)
                ++ (literal " → "
                    ++ (literal (status_text (patch wanted from))
                        ++ literal " in remediation task lifecycle"))))))
    else ok tt

unfoldable pub require_verified : RemediationTaskStatus → Result (Unit {0})
require_verified status =
    if is_verified status
    then ok tt
    else err (
        app (
          conflicting_state (
            literal "Remediation task must be VERIFIED before closing (current: "
            ++ (literal (status_text status) ++ literal ")"))))
