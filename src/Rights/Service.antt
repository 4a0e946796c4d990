-- ===== src/Rights/Service.antt =====
-- src/modules/rights/services/data-subject-request.service.ts. As in the other services, an operation
-- that checks before its transaction is given the state that the checks read and the one that the
-- transaction meets.
use mathlib.Core.Option
use dpdpos_backend.Prelude.{
  ℕ, ◌+◌, ◌*◌, String, literal, trim, is_nonempty, iso, Bool, false, not, ◌&&◌, ◌||◌, Option, none,
  some, List, [], ◌∷◌, ◌++◌, map, given, patch, if◌then◌else◌,
}
use dpdpos_backend.Shared.Errors.{
  Result, ok, err, app, unexpected, missing_resource, conflicting_state, ◌>>=◌, ◌>>◌,
}
use dpdpos_backend.Shared.Context.{RequestContext, Call}
use dpdpos_backend.Shared.Transaction.{with_transaction, checked, or_stale, on_created}
use dpdpos_backend.Shared.Users.{assert_assignee_in_organization}
use dpdpos_backend.Outbox.Events.{
  DomainEventName, Payload, string, date, optional, event_of, write_outbox_event,
  rights_request_submitted, rights_request_closed,
}
use dpdpos_backend.Database.Prisma.{Prisma, Db}
use dpdpos_backend.Rights.Lifecycle.{
  DataSubjectRequestStatus, rejected, closed, status_text, same_status, can_transition, is_terminal,
  DataSubjectRequestType, access, correction, completion, updating, erasure, grievance_redressal,
  nomination, rights_request_sla_days,
}
use dpdpos_backend.Rights.Types.{
  DataSubjectRequest, DataSubjectRequestResponse, to_data_subject_request_response,
  CreateDataSubjectRequestDto, UpdateDataSubjectRequestDto,
}
use dpdpos_backend.Rights.Repository.{
  CreateDataSubjectRequestData, UpdateDataSubjectRequestData, ListDataSubjectRequestsOptions,
  find_by_id, list_requests, create, update,
}

abbrev pub sla_ms_per_day : ℕ
sla_ms_per_day = 24 * 60 * 60 * 1000

unfoldable pub type_text : DataSubjectRequestType → String
type_text access = "ACCESS"
type_text correction = "CORRECTION"
type_text completion = "COMPLETION"
type_text updating = "UPDATING"
type_text erasure = "ERASURE"
type_text grievance_redressal = "GRIEVANCE_REDRESSAL"
type_text nomination = "NOMINATION"

unfoldable pub submit_data : Call → CreateDataSubjectRequestDto → CreateDataSubjectRequestData
submit_data call input = record {
  request_type = input.request_type;
  requester_reference = input.requester_reference;
  assigned_to = input.assigned_to;
  due_at = some (call.now + rights_request_sla_days input.request_type * sla_ms_per_day);
}

unfoldable pub submitted_payload : DataSubjectRequest → Payload
submitted_payload request =
    ("requestId", string request.id)
    ∷ ("requestType", string (type_text request.request_type))
    ∷ optional "dueAt" (Option.map (λ d. date (iso d)) request.due_at) []

unfoldable pub closed_payload : DataSubjectRequest → Payload
closed_payload request =
    ("requestId", string request.id)
    ∷ optional "closedAt" (Option.map (λ d. date (iso d)) request.closed_at) []

-- `input.resolutionSummary?.trim()` as a condition.
unfoldable pub has_resolution : UpdateDataSubjectRequestDto → Bool
has_resolution input = elim (given input.resolution_summary) as (λ _. Bool) [
  | none ↦ false
  | some s ↦ is_nonempty (trim s)
]

unfoldable pub check_transition :
    DataSubjectRequestStatus → Option DataSubjectRequestStatus → Result (Unit {0})
check_transition from none = ok tt
check_transition from (some to) =
    if is_terminal from
    then err (
        app (
          conflicting_state (
            literal "Request is already "
            ++ (literal (status_text from) ++ literal " and cannot be updated further"))))
    else if not (same_status to from) && not (can_transition from to)
    then err (
        app (
          conflicting_state (
            literal "Illegal transition "
            ++ (literal (status_text from)
                ++ (literal " → "
                    ++ (literal (status_text to) ++ literal " in rights request lifecycle"))))))
    else ok tt

unfoldable pub check_resolution :
    DataSubjectRequestStatus → UpdateDataSubjectRequestDto → Result (Unit {0})
check_resolution next input =
    if same_status next closed && not (has_resolution input)
    then err (
        app (conflicting_state (literal "A request cannot be closed without a resolution summary")))
    else ok tt

-- The request moves into a terminal status.
unfoldable pub is_entering_terminal : DataSubjectRequestStatus → DataSubjectRequestStatus → Bool
is_entering_terminal from next =
    (same_status next closed || same_status next rejected) && not (same_status from next)

unfoldable pub update_data :
    Call → UpdateDataSubjectRequestDto → DataSubjectRequest → UpdateDataSubjectRequestData
update_data call input existing =
    let next = patch input.status existing.status in
    record {
      assigned_to = input.assigned_to;
      status = input.status;
      resolution_summary = input.resolution_summary;
      closed_at = if is_entering_terminal existing.status next then some call.now else none;
    }

module _ (p : Prisma) where
  unfoldable pub require_request : RequestContext → String → Db p → Result DataSubjectRequest
  require_request ctx id db = find_by_id p ctx.organization_id id db >>= elim [
    | none ↦ err (app (missing_resource (literal "Data Subject Request not found")))
    | some request ↦ ok request
  ]

  unfoldable pub publish_then :
      Call
      → RequestContext
      → DomainEventName
      → Payload
      → DataSubjectRequestResponse
      → Db p
      → Result (DataSubjectRequestResponse × Db p)
  publish_then call ctx name payload a db =
      write_outbox_event p.outbox_event call (event_of ctx name payload) db.outbox >>= λ outbox.
      ok (a, record db { outbox = outbox })

  unfoldable pub submit_in_transaction :
      Call
      → RequestContext
      → CreateDataSubjectRequestDto
      → Db p
      → Result (DataSubjectRequestResponse × Db p)
  submit_in_transaction call ctx input db =
      on_created (create p call ctx (submit_data call input) db) (err unexpected) (λ request db'.
        publish_then call ctx rights_request_submitted (submitted_payload request)
          (to_data_subject_request_response request) db')

  unfoldable pub submit :
      Call
      → RequestContext
      → CreateDataSubjectRequestDto
      → Db p
      → Db p
      → Result DataSubjectRequestResponse × Db p
  submit call ctx input read db =
      checked (assert_assignee_in_organization p ctx input.assigned_to read)
        (λ _. with_transaction (submit_in_transaction call ctx input)) db

  unfoldable pub get_by_id : RequestContext → String → Db p → Result DataSubjectRequestResponse
  get_by_id ctx id db =
      require_request ctx id db >>= λ request. ok (to_data_subject_request_response request)

  unfoldable pub list :
      RequestContext
      → ListDataSubjectRequestsOptions
      → Db p
      → Result (List DataSubjectRequestResponse)
  list ctx options db = list_requests p ctx.organization_id options db >>= λ requests.
      ok (map to_data_subject_request_response requests)

  unfoldable pub update_checks :
      RequestContext → String → UpdateDataSubjectRequestDto → Db p → Result DataSubjectRequest
  update_checks ctx id input db = do
    existing ← require_request ctx id db
    assert_assignee_in_organization p ctx (given input.assigned_to) db
    check_transition existing.status input.status
    check_resolution (patch input.status existing.status) input
    ok existing

  -- What follows the write: the event of a closing, and the response.
  unfoldable pub finish_update :
      Call
      → RequestContext
      → UpdateDataSubjectRequestDto
      → DataSubjectRequest
      → DataSubjectRequest
      → Db p
      → Result (DataSubjectRequestResponse × Db p)
  finish_update call ctx input existing request db =
      let next = patch input.status existing.status in
      if is_entering_terminal existing.status next && same_status next closed
      then publish_then call ctx rights_request_closed (closed_payload request)
          (to_data_subject_request_response request) db
      else ok (to_data_subject_request_response request, db)

  unfoldable pub update_in_transaction :
      Call
      → RequestContext
      → String
      → UpdateDataSubjectRequestDto
      → DataSubjectRequest
      → Db p
      → Result (DataSubjectRequestResponse × Db p)
  update_in_transaction call ctx id input existing db =
      or_stale (update p call ctx id input.version (update_data call input existing) db)
        (finish_update call ctx input existing)

  unfoldable pub update_request :
      Call
      → RequestContext
      → String
      → UpdateDataSubjectRequestDto
      → Db p
      → Db p
      → Result DataSubjectRequestResponse × Db p
  update_request call ctx id input read db =
      checked (update_checks ctx id input read)
        (λ existing. with_transaction (update_in_transaction call ctx id input existing)) db
