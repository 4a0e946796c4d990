-- ===== src/Violations/Service.antt =====
-- src/modules/violations/services/violation.service.ts. As in the service of remediation tasks, an
-- operation that checks before its transaction is given the state that the checks read and the
-- one that the transaction meets. Log lines are left out.
use mathlib.Core.Option
use dpdpos_backend.Prelude.{String, literal, true, Option, none, some, List, map, truthy, given}
use dpdpos_backend.Shared.Errors.{Result, ok, err, app, unexpected, missing_resource, ◌>>=◌, ◌>>◌}
use dpdpos_backend.Shared.Context.{RequestContext, Call}
use dpdpos_backend.Shared.Transaction.{with_transaction, checked, or_stale, on_created}
use dpdpos_backend.Shared.Users.{assert_assignee_in_organization}
use dpdpos_backend.Outbox.Events.{
  DomainEventName, Payload, event_of, write_outbox_event, violation_created, violation_closed,
}
use dpdpos_backend.Database.Prisma.{Prisma, Db, ValidationResult, ValidationRule}
use dpdpos_backend.Violations.Types.{
  Violation, ViolationResponse, RuleSeverity, to_violation_response, parse_severity,
  CreateViolationDto, UpdateViolationDto, CloseViolationBody, ListViolationsQuery,
  ValidationFailedPayload, AssessmentControlFail,
}
use dpdpos_backend.Violations.Repository.{
  find_by_id, find_by_validation_result, find_by_source_key, list_violations, create, update,
  find_result, find_rule,
}
use dpdpos_backend.Violations.Inputs.{
  created_payload, closed_payload, manual_data, source_key_of, assessment_data, validation_data,
  update_data, close_data, check_transition, require_validated,
}

module _ (p : Prisma) where
  unfoldable pub assert_result_in_organization :
      RequestContext → Option String → Db p → Result (Unit {0})
  assert_result_in_organization ctx none db = ok tt
  assert_result_in_organization ctx (some result_id) db =
      find_result p ctx.organization_id result_id db >>= elim [
        | none ↦ err (app (missing_resource (literal "Validation Result not found")))
        | some result ↦ ok tt
      ]

  unfoldable pub require_violation : RequestContext → String → Db p → Result Violation
  require_violation ctx id db = find_by_id p ctx.organization_id id db >>= elim [
    | none ↦ err (app (missing_resource (literal "Violation not found")))
    | some violation ↦ ok violation
  ]

  -- The event of an operation, written in its transaction, and then its result.
  unfoldable pub publish :
      {A : Type 0}
      → Call
      → RequestContext
      → DomainEventName
      → Payload
      → A
      → Db p
      → Result (A × Db p)
  publish call ctx name payload a db =
      write_outbox_event p.outbox_event call (event_of ctx name payload) db.outbox >>= λ outbox.
      ok (a, record db { outbox = outbox })

  -- Manual creation.
  unfoldable pub create_checks : RequestContext → CreateViolationDto → Db p → Result (Unit {0})
  create_checks ctx input db = do
    assert_assignee_in_organization p ctx input.assigned_to db
    assert_result_in_organization ctx (truthy input.validation_result_id) db

  unfoldable pub finish_create :
      Call → RequestContext → Violation → Db p → Result (ViolationResponse × Db p)
  finish_create call ctx violation db =
      publish call ctx violation_created
        (created_payload violation violation.validation_result_id violation.evidence_required_flag)
        (to_violation_response violation) db

  unfoldable pub create_in_transaction :
      Call → RequestContext → CreateViolationDto → Db p → Result (ViolationResponse × Db p)
  create_in_transaction call ctx input db =
      on_created (create p call ctx (manual_data input) db) (err unexpected)
        (finish_create call ctx)

  unfoldable pub create_violation :
      Call → RequestContext → CreateViolationDto → Db p → Db p → Result ViolationResponse × Db p
  create_violation call ctx input read db =
      checked (create_checks ctx input read)
        (λ _. with_transaction (create_in_transaction call ctx input)) db

  -- From a control that failed in an assessment, once for its source key.
  unfoldable pub assessment_in_transaction :
      Call
      → RequestContext
      → AssessmentControlFail
      → Db p
      → Result (Option ViolationResponse × Db p)
  assessment_in_transaction call ctx input db =
      on_created (create p call ctx (assessment_data input) db) (err unexpected) (λ violation db'.
        publish call ctx violation_created (created_payload violation none true)
          (some (to_violation_response violation)) db')

  unfoldable pub assessment_unless_found :
      Call
      → RequestContext
      → AssessmentControlFail
      → Option Violation
      → Db p
      → Result (Option ViolationResponse) × Db p
  assessment_unless_found call ctx input (some existing) db =
      (ok (some (to_violation_response existing)), db)
  assessment_unless_found call ctx input none db =
      with_transaction (assessment_in_transaction call ctx input) db

  unfoldable pub create_from_assessment_control_fail :
      Call
      → RequestContext
      → AssessmentControlFail
      → Db p
      → Db p
      → Result (Option ViolationResponse) × Db p
  create_from_assessment_control_fail call ctx input read db =
      checked (find_by_source_key p ctx.organization_id (source_key_of input) read)
        (assessment_unless_found call ctx input) db

  -- From a failed validation, once for its result.
  unfoldable pub raced_violation :
      RequestContext → String → Db p → Result (Option ViolationResponse × Db p)
  raced_violation ctx result_id db =
      find_by_validation_result p ctx.organization_id result_id db >>= λ raced.
      ok (Option.map to_violation_response raced, db)

  unfoldable pub validation_in_transaction :
      Call
      → RequestContext
      → ValidationFailedPayload
      → String
      → RuleSeverity
      → ValidationResult
      → Option ValidationRule
      → Db p
      → Result (Option ViolationResponse × Db p)
  validation_in_transaction call ctx payload result_id severity result rule db =
      on_created (create p call ctx (validation_data payload result_id severity result rule) db)
        (raced_violation ctx result_id db)
        (λ violation db'.
          publish call ctx violation_created
            (created_payload violation (some result_id) violation.evidence_required_flag)
            (some (to_violation_response violation)) db')

  unfoldable pub with_severity :
      Call
      → RequestContext
      → ValidationFailedPayload
      → String
      → ValidationResult
      → Db p
      → Option RuleSeverity
      → Db p
      → Result (Option ViolationResponse) × Db p
  with_severity call ctx payload result_id result read none db = (ok none, db)
  with_severity call ctx payload result_id result read (some severity) db =
      checked (find_rule p ctx.organization_id payload.rule_id read)
        (λ rule.
          with_transaction
            (validation_in_transaction call ctx payload result_id severity result rule))
        db

  unfoldable pub with_result :
      Call
      → RequestContext
      → ValidationFailedPayload
      → String
      → Db p
      → Option ValidationResult
      → Db p
      → Result (Option ViolationResponse) × Db p
  with_result call ctx payload result_id read none db = (ok none, db)
  with_result call ctx payload result_id read (some result) db =
      with_severity call ctx payload result_id result read (parse_severity payload.severity) db

  unfoldable pub validation_unless_found :
      Call
      → RequestContext
      → ValidationFailedPayload
      → String
      → Db p
      → Option Violation
      → Db p
      → Result (Option ViolationResponse) × Db p
  validation_unless_found call ctx payload result_id read (some existing) db =
      (ok (some (to_violation_response existing)), db)
  validation_unless_found call ctx payload result_id read none db =
      checked (find_result p ctx.organization_id result_id read)
        (with_result call ctx payload result_id read) db

  unfoldable pub for_result :
      Call
      → RequestContext
      → ValidationFailedPayload
      → Db p
      → Option String
      → Db p
      → Result (Option ViolationResponse) × Db p
  for_result call ctx payload read none db = (ok none, db)
  for_result call ctx payload read (some result_id) db =
      checked (find_by_validation_result p ctx.organization_id result_id read)
        (validation_unless_found call ctx payload result_id read) db

  unfoldable pub create_from_validation_failed :
      Call
      → RequestContext
      → ValidationFailedPayload
      → Db p
      → Db p
      → Result (Option ViolationResponse) × Db p
  create_from_validation_failed call ctx payload read db =
      for_result call ctx payload read (truthy payload.result_id) db

  unfoldable pub get_by_id : RequestContext → String → Db p → Result ViolationResponse
  get_by_id ctx id db =
      require_violation ctx id db >>= λ violation. ok (to_violation_response violation)

  unfoldable pub list :
      RequestContext → ListViolationsQuery → Db p → Result (List ViolationResponse)
  list ctx options db = list_violations p ctx.organization_id options db >>= λ violations.
      ok (map to_violation_response violations)

  unfoldable pub update_checks :
      RequestContext → String → UpdateViolationDto → Db p → Result Violation
  update_checks ctx id input db = do
    existing ← require_violation ctx id db
    assert_assignee_in_organization p ctx (given input.assigned_to) db
    check_transition existing.status input.status
    ok existing

  unfoldable pub update_in_transaction :
      Call
      → RequestContext
      → String
      → UpdateViolationDto
      → Violation
      → Db p
      → Result (ViolationResponse × Db p)
  update_in_transaction call ctx id input existing db =
      or_stale (update p call ctx id input.version (update_data input) db)
        (λ violation db'. ok (to_violation_response violation, db'))

  unfoldable pub update_violation :
      Call
      → RequestContext
      → String
      → UpdateViolationDto
      → Db p
      → Db p
      → Result ViolationResponse × Db p
  update_violation call ctx id input read db =
      checked (update_checks ctx id input read)
        (λ existing. with_transaction (update_in_transaction call ctx id input existing)) db

  unfoldable pub close_checks : RequestContext → String → Db p → Result (Unit {0})
  close_checks ctx id db = do
    existing ← require_violation ctx id db
    require_validated existing.status

  unfoldable pub close_in_transaction :
      Call → RequestContext → String → CloseViolationBody → Db p → Result (ViolationResponse × Db p)
  close_in_transaction call ctx id input db =
      or_stale (update p call ctx id input.version (close_data call input) db) λ violation db'.
        publish call ctx violation_closed (closed_payload call violation)
          (to_violation_response violation) db'

  unfoldable pub close_violation :
      Call
      → RequestContext
      → String
      → CloseViolationBody
      → Db p
      → Db p
      → Result ViolationResponse × Db p
  close_violation call ctx id input read db =
      checked (close_checks ctx id read)
        (λ _. with_transaction (close_in_transaction call ctx id input)) db
