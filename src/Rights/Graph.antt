-- ===== src/Rights/Graph.antt =====
-- The comment on the lifecycle of src/modules/rights/domain, as facts on its transition table.
use dpdpos_backend.Prelude.{◌≡◌, refl, true, not, ◌||◌, is_some, List, [], ◌∷◌, any}
use dpdpos_backend.Rights.Lifecycle.{
  DataSubjectRequestStatus, submitted, assigned, in_progress, responded, rejected, closed,
  same_status, transitions, can_transition, action_for, is_terminal,
}

abbrev all_statuses : List DataSubjectRequestStatus
all_statuses = submitted ∷ assigned ∷ in_progress ∷ responded ∷ rejected ∷ closed ∷ []

-- CLOSED may follow RESPONDED, or CLOSED itself as every status may follow itself, and no other
-- status; the terminal statuses are those from which no action leads on.
pub request_lifecycle :
    (s : DataSubjectRequestStatus)
    → (can_transition s closed ≡ (same_status s responded || same_status s closed))
      × (can_transition s s ≡ true)
      × (is_terminal s ≡ not (any (λ t. is_some (action_for s t)) all_statuses))
unfolding transitions can_transition action_for is_terminal
request_lifecycle submitted = (refl, refl, refl)
request_lifecycle assigned = (refl, refl, refl)
request_lifecycle in_progress = (refl, refl, refl)
request_lifecycle responded = (refl, refl, refl)
request_lifecycle rejected = (refl, refl, refl)
request_lifecycle closed = (refl, refl, refl)
