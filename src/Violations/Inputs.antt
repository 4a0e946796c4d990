-- ===== src/Violations/Inputs.antt =====
-- The pure parts of src/modules/violations/services/violation.service.ts: titles, payloads, the
-- changes that an operation writes, and the checks of a status.
use mathlib.Core.Option
use dpdpos_backend.Prelude.{
  String, JsText, literal, decimal, iso, time_of, ◌++◌, Bool, true, false, not, ◌&&◌, Option, none,
  some, [], ◌∷◌, value, undefined, patch, map_patch, is_some, if◌then◌else◌,
}
use dpdpos_backend.Shared.Errors.{Result, ok, err, app, conflicting_state}
use dpdpos_backend.Shared.Context.{Call}
use dpdpos_backend.Outbox.Events.{Payload, string, free_text, date, boolean, optional}
use dpdpos_backend.Database.Prisma.{ValidationResult, ValidationRule}
use dpdpos_backend.Violations.Lifecycle.{
  ViolationStatus, validated, closed, status_text, can_transition, is_terminal,
}
use dpdpos_backend.Violations.Types.{
  Violation, RuleSeverity, high, severity_text, parse_severity, CreateViolationDto,
  UpdateViolationDto, CloseViolationBody, ValidationFailedPayload, AssessmentControlFail,
}
use dpdpos_backend.Violations.Repository.{CreateViolationData, UpdateViolationData}

abbrev pub is_validated : ViolationStatus → Bool
is_validated validated = true
is_validated _ = false

-- `{ violationId, severity, title, validationResultId, evidenceRequiredFlag }`.
unfoldable pub created_payload : Violation → Option String → Bool → Payload
created_payload violation result_id evidence =
    ("violationId", string violation.id)
    ∷ ("severity", string (severity_text violation.severity))
    ∷ ("title", free_text violation.title)
    ∷ optional "validationResultId" (Option.map string result_id)
        (("evidenceRequiredFlag", boolean evidence) ∷ [])

unfoldable pub closed_payload : Call → Violation → Payload
closed_payload call violation =
    ("violationId", string violation.id)
    ∷ ("closedAt", date (iso (Option.get_or violation.closed_at call.now)))
    ∷ []

unfoldable pub manual_data : CreateViolationDto → CreateViolationData
manual_data input = record {
  validation_result_id = input.validation_result_id;
  source_key = none;
  severity = input.severity;
  title = input.title;
  description = input.description;
  assigned_to = input.assigned_to;
  due_at = Option.map time_of input.due_at;
  evidence_required_flag = none;
}

-- assessment:{id}:v{n}:{controlCode}
unfoldable pub source_key_of : AssessmentControlFail → JsText
source_key_of input =
    literal "assessment:"
    ++ (input.assessment_id
        ++ (literal ":v" ++ (decimal input.version_number ++ (literal ":" ++ input.control_code))))

-- A severity that is none of the four is taken for HIGH.
unfoldable pub assessment_data : AssessmentControlFail → CreateViolationData
assessment_data input = record {
  validation_result_id = none;
  source_key = some (source_key_of input);
  severity = Option.get_or (parse_severity input.severity) high;
  title =
      literal "[Assessment] "
      ++ (input.control_code ++ (literal " failed — " ++ input.assessment_name));
  description = some (
      literal "Readiness evaluation v"
      ++ (decimal input.version_number
          ++ (literal " marked "
              ++ (input.control_code
                  ++ (literal " as FAIL.\n\n"
                      ++ (input.reasoning
                          ++ literal
                              "\n\nClose this after remediating and re-evaluate the assessment version."))))));
  assigned_to = none;
  due_at = none;
  evidence_required_flag = some true;
}

abbrev first_given : {A : Type 0} → Option A → Option A → Option A
first_given (some a) other = some a
first_given none other = other

unfoldable pub validation_title : ValidationFailedPayload → Option ValidationRule → JsText
validation_title payload none = literal "Validation failed: " ++ payload.rule_code
validation_title payload (some rule) = literal "Validation failed: " ++ rule.title

unfoldable pub validation_data :
    ValidationFailedPayload
    → String
    → RuleSeverity
    → ValidationResult
    → Option ValidationRule
    → CreateViolationData
validation_data payload result_id severity result rule = record {
  validation_result_id = some result_id;
  source_key = none;
  severity = severity;
  title = validation_title payload rule;
  description = first_given payload.explanation result.explanation;
  assigned_to = none;
  due_at = none;
  evidence_required_flag = some (Option.get_or payload.evidence_required_flag false);
}

unfoldable pub update_data : UpdateViolationDto → UpdateViolationData
update_data input = record {
  title = input.title;
  description = input.description;
  severity = input.severity;
  assigned_to = input.assigned_to;
  status = input.status;
  due_at = map_patch time_of input.due_at;
  resolution_summary = input.resolution_summary;
  closed_at = none;
}

unfoldable pub close_data : Call → CloseViolationBody → UpdateViolationData
close_data call input = record {
  title = none;
  description = undefined;
  severity = none;
  assigned_to = undefined;
  status = some closed;
  due_at = undefined;
  resolution_summary = value input.resolution_summary;
  closed_at = some call.now;
}

-- The status checks of a lifecycle update.
unfoldable pub check_transition : ViolationStatus → Option ViolationStatus → Result (Unit {0})
check_transition from wanted =
    if is_terminal from
    then err (
        app (
          conflicting_state (
            literal "Violation is already "
            ++ (literal (status_text from) ++ literal " and cannot be updated"))))
    else if is_some wanted && not (can_transition from (patch wanted from))
    then err (
        app (
          conflicting_state (
            literal "Illegal transition "
            ++ (literal (status_text from)
                ++ (literal " → "
                    ++ (literal (status_text (patch wanted from))
                        ++ literal " in violation lifecycle"))))))
    else ok tt

unfoldable pub require_validated : ViolationStatus → Result (Unit {0})
require_validated status =
    if is_validated status
    then ok tt
    else err (
        app (
          conflicting_state (
            literal "Violation must be VALIDATED before closing (current: "
            ++ (literal (status_text status) ++ literal ")"))))
