-- ===== src/Remediation/Lifecycle.antt =====
-- src/modules/remediation/domain/remediation-task-lifecycle.state-machine.ts.
use dpdpos_backend.Prelude.{String, Bool, true, false, Option, none, some, is_some, if◌then◌else◌}
use dpdpos_backend.Shared.Errors.{Result, ok, err, unexpected}

pub data RemediationTaskStatus : Type 0 where
  pending in_progress pending_verification verified closed cancelled : RemediationTaskStatus

-- The spelling that the database, the clients and the error messages see.
unfoldable pub status_text : RemediationTaskStatus → String
status_text pending = "PENDING"
status_text in_progress = "IN_PROGRESS"
status_text pending_verification = "PENDING_VERIFICATION"
status_text verified = "VERIFIED"
status_text closed = "CLOSED"
status_text cancelled = "CANCELLED"

-- `TRANSITIONS[from][to]`.
unfoldable pub transitions : RemediationTaskStatus → RemediationTaskStatus → Option String
transitions pending in_progress = some "start"
transitions pending cancelled = some "cancel"
transitions in_progress pending_verification = some "submit"
transitions in_progress cancelled = some "cancel"
transitions pending_verification in_progress = some "rework"
transitions pending_verification verified = some "verify"
transitions pending_verification cancelled = some "cancel"
transitions verified closed = some "close"
transitions verified cancelled = some "cancel"
transitions _ _ = none

unfoldable pub can_transition : RemediationTaskStatus → RemediationTaskStatus → Bool
unfolding transitions
can_transition from to = is_some (transitions from to)

unfoldable pub action_for : RemediationTaskStatus → RemediationTaskStatus → Option String
unfolding transitions
action_for from to = transitions from to

unfoldable pub is_terminal : RemediationTaskStatus → Bool
is_terminal closed = true
is_terminal cancelled = true
is_terminal _ = false

-- `throw new Error(...)` is no application error.
unfoldable pub next_status :
    RemediationTaskStatus → RemediationTaskStatus → Result RemediationTaskStatus
unfolding can_transition
next_status from to = if can_transition from to then ok to else err unexpected
