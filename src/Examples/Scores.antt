-- ===== src/Examples/Scores.antt =====
-- A vendor of src/modules/vendors with its score, and statuses of the lifecycles.

use dpdpos_backend.Prelude.{
  ◌≤◌, ◌<◌, ◌⊎◌, ◌≡◌, refl, true, false, none, some, literal, [], ◌∷◌, arith, truthy,
}
use dpdpos_backend.Remediation.Lifecycle.{
  verified as task_verified, closed as task_closed, cancelled as task_cancelled, transitions,
  can_transition, is_terminal,
}
use dpdpos_backend.Violations.Lifecycle.{
  validated as violation_validated, closed as violation_closed, archived as violation_archived,
  transitions as violation_transitions, can_transition as can_follow, is_terminal as is_final,
}
use dpdpos_backend.Rights.Lifecycle.{
  responded as request_responded, closed as request_closed, transitions as request_transitions,
  can_transition as may_follow, is_terminal as is_over, action_for,
}
use dpdpos_backend.Vendors.Scorecard.{
  VendorRecord, RiskInput, compute_vendor_risk, residual_scoring, inherent_scoring, base_scoring,
  criticality_base, score_categories, score_countries, is_india, score_dpa, score_outcome,
  score_overdue, apply_floor, score_children, score_unacknowledged,
}
use dpdpos_backend.Vendors.Bounds.{
  risk_bounds, supply_chain_monotone, dpa_never_hurts, review_floor,
}
use dpdpos_backend.Remediation.Graph.{task_lifecycle}
use dpdpos_backend.Violations.Graph.{violation_lifecycle}
use dpdpos_backend.Rights.Graph.{request_lifecycle}
use dpdpos_backend.Evidence.Lifecycle.{
  approved, locked, progress, assert_transition, can_transition as may_change,
  evidence_goes_forward,
}

abbrev vendor : VendorRecord
vendor = record {
  id = "vendor-1";
  criticality = "MEDIUM";
  data_categories = literal "email" ∷ literal "phone" ∷ literal "health" ∷ [];
  countries = literal "IN" ∷ literal "US" ∷ [];
  next_review_at = some 500;
}

abbrev input : RiskInput
input = record {
  vendor = vendor;
  has_active_dpa = true;
  dpa_expires_at = some 9000000000;
  latest_review_outcome = some "APPROVED";
  latest_review_residual = some "HIGH";
  child_critical_count = 1;
  unacknowledged_child_count = none;
}

-- 40 for MEDIUM, 10 for three categories and 10 for a country abroad; then 10 off for the agreement
-- and 10 for the approval, 5 for the review that is overdue, the floor of 65, and 5 for the child.
score_test :
    ((compute_vendor_risk 1000 input).inherent_risk_score ≡ 60)
    × ((compute_vendor_risk 1000 input).residual_risk_score ≡ 70)
    × ((compute_vendor_risk 1000 input).open_risk_flags
        ≡ "cross_border" ∷ "review_overdue" ∷ "supply_chain_concentration" ∷ [])
unfolding compute_vendor_risk residual_scoring inherent_scoring base_scoring criticality_base
    score_categories score_countries is_india score_dpa score_outcome score_overdue apply_floor
    score_children score_unacknowledged literal truthy
score_test = (refl, refl, refl)

risk_bounds_example :
    (20 ≤ (compute_vendor_risk 1000 input).inherent_risk_score)
    × ((compute_vendor_risk 1000 input).inherent_risk_score ≤ 100)
    × ((compute_vendor_risk 1000 input).residual_risk_score ≤ 100)
risk_bounds_example = risk_bounds 1000 input

abbrev worse : RiskInput
worse = record input { child_critical_count = 3; unacknowledged_child_count = some 2 }

abbrev covered : RiskInput
covered = record input { has_active_dpa = true; dpa_expires_at = some 9000000000 }

abbrev uncovered : RiskInput
uncovered = record input { has_active_dpa = false; dpa_expires_at = none }

supply_chain_monotone_example :
    (compute_vendor_risk 1000 input).residual_risk_score
    ≤ (compute_vendor_risk 1000 worse).residual_risk_score
supply_chain_monotone_example = supply_chain_monotone 1000 input 3 2 (omega arith) (omega arith)

dpa_never_hurts_example :
    (compute_vendor_risk 1000 covered).residual_risk_score
    ≤ (compute_vendor_risk 1000 uncovered).residual_risk_score
dpa_never_hurts_example = dpa_never_hurts 1000 input (some 9000000000) none

review_floor_example : 65 ≤ (compute_vendor_risk 1000 input).residual_risk_score
unfolding criticality_base
review_floor_example = review_floor 1000 input "HIGH" 65 refl refl

task_lifecycle_example :
    (can_transition task_verified task_closed ≡ true)
    × (can_transition task_verified task_cancelled ≡ true)
    × (is_terminal task_verified ≡ false)
unfolding can_transition transitions is_terminal
task_lifecycle_example = task_lifecycle task_verified

violation_lifecycle_example :
    (can_follow violation_validated violation_closed ≡ true)
    × (can_follow violation_validated violation_archived ≡ true)
    × (is_final violation_validated ≡ false)
unfolding can_follow violation_transitions is_final
violation_lifecycle_example = violation_lifecycle violation_validated

request_lifecycle_example :
    (may_follow request_responded request_closed ≡ true)
    × (may_follow request_responded request_responded ≡ true)
    × (is_over request_responded ≡ false)
unfolding may_follow request_transitions is_over action_for
request_lifecycle_example = request_lifecycle request_responded

evidence_goes_forward_example :
    ((approved ≡ locked) ⊎ (progress approved < progress locked))
    × (4 ≤ progress locked → 3 ≤ progress approved)
    × (locked ≡ locked → 4 ≤ progress approved)
unfolding assert_transition may_change
evidence_goes_forward_example = evidence_goes_forward approved locked refl
