-- ===== src/Violations/Lifecycle.antt =====
-- src/modules/violations/domain/violation-lifecycle.state-machine.ts.
use dpdpos_backend.Prelude.{String, Bool, true, false, Option, none, some, is_some, if◌then◌else◌}
use dpdpos_backend.Shared.Errors.{Result, ok, err, unexpected}

pub data ViolationStatus : Type 0 where
  opened triage assigned in_progress pending_evidence validated closed archived : ViolationStatus

unfoldable pub status_text : ViolationStatus → String
status_text opened = "OPEN"
status_text triage = "TRIAGE"
status_text assigned = "ASSIGNED"
status_text in_progress = "IN_PROGRESS"
status_text pending_evidence = "PENDING_EVIDENCE"
status_text validated = "VALIDATED"
status_text closed = "CLOSED"
status_text archived = "ARCHIVED"

-- `TRANSITIONS[from][to]`.
unfoldable pub transitions : ViolationStatus → ViolationStatus → Option String
transitions opened triage = some "triage"
transitions opened assigned = some "assign"
transitions opened archived = some "archive"
transitions triage assigned = some "assign"
transitions triage in_progress = some "start"
transitions triage archived = some "archive"
transitions assigned in_progress = some "start"
transitions assigned archived = some "archive"
transitions in_progress pending_evidence = some "request_evidence"
transitions in_progress validated = some "validate"
transitions in_progress archived = some "archive"
transitions pending_evidence in_progress = some "submit_evidence"
transitions pending_evidence validated = some "validate"
transitions pending_evidence archived = some "archive"
transitions validated closed = some "close"
transitions validated archived = some "archive"
transitions _ _ = none

unfoldable pub can_transition : ViolationStatus → ViolationStatus → Bool
unfolding transitions
can_transition from to = is_some (transitions from to)

unfoldable pub action_for : ViolationStatus → ViolationStatus → Option String
unfolding transitions
action_for from to = transitions from to

unfoldable pub is_terminal : ViolationStatus → Bool
is_terminal closed = true
is_terminal archived = true
is_terminal _ = false

unfoldable pub next_status : ViolationStatus → ViolationStatus → Result ViolationStatus
unfolding can_transition
next_status from to = if can_transition from to then ok to else err unexpected
