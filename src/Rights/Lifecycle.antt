-- ===== src/Rights/Lifecycle.antt =====
-- src/modules/rights/domain/rights-request-lifecycle.state-machine.ts.
use dpdpos_backend.Prelude.{
  ℕ, String, Bool, true, false, ◌||◌, Option, none, some, is_some, if◌then◌else◌,
}
use dpdpos_backend.Shared.Errors.{Result, ok, err, unexpected}

pub data DataSubjectRequestStatus : Type 0 where
  submitted assigned in_progress responded rejected closed : DataSubjectRequestStatus

unfoldable pub status_text : DataSubjectRequestStatus → String
status_text submitted = "SUBMITTED"
status_text assigned = "ASSIGNED"
status_text in_progress = "IN_PROGRESS"
status_text responded = "RESPONDED"
status_text rejected = "REJECTED"
status_text closed = "CLOSED"

-- `===` on statuses.
abbrev pub same_status : DataSubjectRequestStatus → DataSubjectRequestStatus → Bool
same_status submitted submitted = true
same_status assigned assigned = true
same_status in_progress in_progress = true
same_status responded responded = true
same_status rejected rejected = true
same_status closed closed = true
same_status _ _ = false

-- `TRANSITIONS[from][to]`.
unfoldable pub transitions : DataSubjectRequestStatus → DataSubjectRequestStatus → Option String
transitions submitted assigned = some "assign"
transitions submitted in_progress = some "start"
transitions submitted rejected = some "reject"
transitions assigned in_progress = some "start"
transitions assigned rejected = some "reject"
transitions in_progress responded = some "respond"
transitions in_progress rejected = some "reject"
transitions responded closed = some "close"
transitions _ _ = none

-- A request may always stay where it is.
unfoldable pub can_transition : DataSubjectRequestStatus → DataSubjectRequestStatus → Bool
unfolding transitions
can_transition from to = same_status from to || is_some (transitions from to)

unfoldable pub action_for : DataSubjectRequestStatus → DataSubjectRequestStatus → Option String
unfolding transitions
action_for from to = transitions from to

unfoldable pub is_terminal : DataSubjectRequestStatus → Bool
is_terminal closed = true
is_terminal rejected = true
is_terminal _ = false

unfoldable pub next_status :
    DataSubjectRequestStatus → DataSubjectRequestStatus → Result DataSubjectRequestStatus
unfolding can_transition
next_status from to = if can_transition from to then ok to else err unexpected

pub data DataSubjectRequestType : Type 0 where
  access correction completion updating erasure : DataSubjectRequestType
  grievance_redressal nomination : DataSubjectRequestType

unfoldable pub rights_request_sla_days : DataSubjectRequestType → ℕ
rights_request_sla_days access = 30
rights_request_sla_days correction = 30
rights_request_sla_days completion = 30
rights_request_sla_days updating = 30
rights_request_sla_days erasure = 30
rights_request_sla_days grievance_redressal = 45
rights_request_sla_days nomination = 30
