-- ===== src/Evidence/Lifecycle.antt =====
-- src/modules/evidence/domain/evidence-lifecycle.ts.
use dpdpos_backend.Prelude.{
  ℕ, ◌≤◌, ◌<◌, String, literal, ◌≡◌, ◌⊎◌, Bool, true, false, ◌||◌, List, [], ◌∷◌, ◌++◌, any, arith,
  if◌then◌else◌,
}
use dpdpos_backend.Shared.Errors.{Result, ok, err, app, conflicting_state}

pub data EvidenceStatus : Type 0 where
  uploaded tagged mapped under_review approved locked : EvidenceStatus

unfoldable pub status_text : EvidenceStatus → String
status_text uploaded = "UPLOADED"
status_text tagged = "TAGGED"
status_text mapped = "MAPPED"
status_text under_review = "UNDER_REVIEW"
status_text approved = "APPROVED"
status_text locked = "LOCKED"

unfoldable pub valid_transitions : EvidenceStatus → List EvidenceStatus
valid_transitions uploaded = tagged ∷ mapped ∷ under_review ∷ []
valid_transitions tagged = mapped ∷ []
valid_transitions mapped = under_review ∷ []
valid_transitions under_review = approved ∷ []
valid_transitions approved = locked ∷ []
valid_transitions locked = []

-- `===` on statuses.
abbrev pub same_status : EvidenceStatus → EvidenceStatus → Bool
same_status uploaded uploaded = true
same_status tagged tagged = true
same_status mapped mapped = true
same_status under_review under_review = true
same_status approved approved = true
same_status locked locked = true
same_status _ _ = false

unfoldable pub can_transition : EvidenceStatus → EvidenceStatus → Bool
unfolding valid_transitions
can_transition from to = same_status from to || any (λ s. same_status s to) (valid_transitions from)

unfoldable pub assert_transition : EvidenceStatus → EvidenceStatus → Result (Unit {0})
assert_transition from to =
    if can_transition from to
    then ok tt
    else err (
        app (
          conflicting_state (
            literal "Invalid state transition from "
            ++ (literal (status_text from) ++ (literal " to " ++ literal (status_text to))))))

-- How far a status is along the lifecycle.
abbrev pub progress : EvidenceStatus → ℕ
progress uploaded = 0
progress tagged = 1
progress mapped = 2
progress under_review = 3
progress approved = 4
progress locked = 5

-- A transition that is let through stays or goes forward, never skips the review or the approval, and
-- gets to LOCKED from APPROVED or LOCKED alone.
pub evidence_goes_forward :
    (from to : EvidenceStatus)
    → assert_transition from to ≡ ok tt
    → ((from ≡ to) ⊎ (progress from < progress to))
      × (4 ≤ progress to → 3 ≤ progress from)
      × (to ≡ locked → 4 ≤ progress from)
unfolding assert_transition can_transition
evidence_goes_forward from to h = ground arith
