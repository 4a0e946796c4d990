-- ===== src/Violations/Graph.antt =====
-- The comment on the lifecycle of src/modules/violations/domain, as facts on its transition table.
use dpdpos_backend.Prelude.{◌≡◌, refl, not, List, [], ◌∷◌, any}
use dpdpos_backend.Violations.Lifecycle.{
  ViolationStatus, opened, triage, assigned, in_progress, pending_evidence, validated, closed,
  archived, transitions, can_transition, is_terminal,
}
use dpdpos_backend.Violations.Repository.{same_violation_status}

abbrev all_statuses : List ViolationStatus
all_statuses =
    opened ∷ triage ∷ assigned ∷ in_progress ∷ pending_evidence ∷ validated ∷ closed ∷ archived ∷ []

-- CLOSED is entered from VALIDATED and from no other status, ARCHIVED from every status that is not
-- terminal and from no other, and the terminal statuses are those that have no successor at all.
pub violation_lifecycle :
    (s : ViolationStatus)
    → (can_transition s closed ≡ same_violation_status s validated)
      × (can_transition s archived ≡ not (is_terminal s))
      × (is_terminal s ≡ not (any (can_transition s) all_statuses))
unfolding transitions can_transition is_terminal
violation_lifecycle opened = (refl, refl, refl)
violation_lifecycle triage = (refl, refl, refl)
violation_lifecycle assigned = (refl, refl, refl)
violation_lifecycle in_progress = (refl, refl, refl)
violation_lifecycle pending_evidence = (refl, refl, refl)
violation_lifecycle validated = (refl, refl, refl)
violation_lifecycle closed = (refl, refl, refl)
violation_lifecycle archived = (refl, refl, refl)
