-- ===== src/Remediation/Graph.antt =====
-- The comment on the lifecycle of src/modules/remediation/domain, as facts on its transition table.
use dpdpos_backend.Prelude.{◌≡◌, refl, not, List, [], ◌∷◌, any}
use dpdpos_backend.Remediation.Lifecycle.{
  RemediationTaskStatus, pending, in_progress, pending_verification, verified, closed, cancelled,
  transitions, can_transition, is_terminal,
}
use dpdpos_backend.Remediation.Repository.{same_task_status}

abbrev all_statuses : List RemediationTaskStatus
all_statuses = pending ∷ in_progress ∷ pending_verification ∷ verified ∷ closed ∷ cancelled ∷ []

-- CLOSED is entered from VERIFIED and from no other status, CANCELLED from every status that is not
-- terminal and from no other, and the terminal statuses are those that have no successor at all.
pub task_lifecycle :
    (s : RemediationTaskStatus)
    → (can_transition s closed ≡ same_task_status s verified)
      × (can_transition s cancelled ≡ not (is_terminal s))
      × (is_terminal s ≡ not (any (can_transition s) all_statuses))
unfolding transitions can_transition is_terminal
task_lifecycle pending = (refl, refl, refl)
task_lifecycle in_progress = (refl, refl, refl)
task_lifecycle pending_verification = (refl, refl, refl)
task_lifecycle verified = (refl, refl, refl)
task_lifecycle closed = (refl, refl, refl)
task_lifecycle cancelled = (refl, refl, refl)
