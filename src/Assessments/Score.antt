-- ===== src/Assessments/Score.antt =====
-- Bounds on the readiness score of src/modules/assessments/services/control-engine.service.ts.
use dpdpos_backend.Prelude.{
  ℕ, ◌+◌, ◌≤◌, ◌<◌, ◌≡◌, Bool, true, false, List, [], ◌∷◌, length, ltb, arith, min, ◌==◌, suc,
  Double, double, nearest, divide, multiply, math_round, AtMost, raise, nearest-AtMost,
  double-AtMost, add-AtMost, divide-AtMost, multiply-AtMost, math_round-le, if◌then◌else◌,
  Bool-cases, inl, inr,
}
use dpdpos_backend.Assessments.Controls.{assessment_control_registry}
use dpdpos_backend.Assessments.Engine.{
  pass, partial, fail, unknown, not_applicable, ControlEvalResult, ControlEvalStatus,
}
use dpdpos_backend.Assessments.Evaluation.{
  EvaluationInput, scored_results, add_points, points_from, raw_score, apply_ceilings,
  has_searchable_docs, evaluate_results, summarize, evaluate_controls,
}

add_points-AtMost :
    (acc : Double) (n : ℕ) (status : ControlEvalStatus)
    → AtMost acc n
    → AtMost (add_points acc status) (suc n)
add_points-AtMost acc n pass a =
    raise (n + 1) (suc n) (omega arith)
      (add-AtMost acc (double 1) n 1 a (double-AtMost 1 1 (omega arith)))
add_points-AtMost acc n partial a =
    raise (n + 1) (suc n) (omega arith)
      (add-AtMost acc (nearest 45 100) n 1 a (nearest-AtMost 45 100 1 (omega arith) (omega arith)))
add_points-AtMost acc n fail a = raise n (suc n) (omega arith) a
add_points-AtMost acc n unknown a = raise n (suc n) (omega arith) a
add_points-AtMost acc n not_applicable a = raise n (suc n) (omega arith) a

points_from-AtMost :
    (rs : List ControlEvalResult) (acc : Double) (n : ℕ)
    → AtMost acc n
    → AtMost (points_from acc rs) (n + length rs)
unfolding points_from
points_from-AtMost [] acc n a = raise n (n + 0) (omega arith) a
points_from-AtMost (r ∷ rs) acc n a =
    raise (suc n + length rs) (n + suc (length rs)) (omega arith)
      (points_from-AtMost rs (add_points acc r.status) (suc n) (add_points-AtMost acc n r.status a))

share-le :
    (rs : List ControlEvalResult)
    → 0 < length rs
    → math_round (multiply (divide (points_from (double 0) rs) (double (length rs))) (double 1000))
      ≤ 1000
share-le rs h = math_round-le _ 1000 (
    multiply-AtMost (divide (points_from (double 0) rs) (double (length rs))) 1 1000 (
      divide-AtMost (points_from (double 0) rs) (length rs) h (
        raise (0 + length rs) (length rs) (omega arith)
          (points_from-AtMost rs (double 0) 0 (double-AtMost 0 0 (omega arith))))))

capped_share :
    (rs : List ControlEvalResult)
    → (if length rs == 0
        then 0
        else math_round
            (multiply (divide (points_from (double 0) rs) (double (length rs))) (double 1000)))
      ≤ 1000
capped_share rs = elim (Bool-cases (length rs == 0)) [
  | inl empty ↦ rw empty (omega arith)
  | inr some_left ↦ rw some_left (share-le rs (ground arith))
]

raw_score-le : (rs : List ControlEvalResult) → raw_score rs ≤ 1000
unfolding raw_score
raw_score-le rs = capped_share (scored_results rs)

-- The most that the evidence allows, in tenths.
abbrev pub ceiling : Bool → Bool → ℕ
ceiling false has_docs = 550
ceiling true false = 750
ceiling true true = 1000

apply_ceilings-min :
    (f d : Bool) (score : ℕ) → score ≤ 1000 → (apply_ceilings f d score).0 ≡ min (ceiling f d) score
unfolding apply_ceilings
apply_ceilings-min f d score h = ground arith

-- The score is the minimum of the rounded share of points, computed in doubles, and a ceiling: 55
-- without technical findings, 75 with findings but no searchable document, 100 with both; and the
-- share itself is at most 100.
pub score_is_capped :
    (input : EvaluationInput)
    → let e = evaluate_controls input in
      (e.score
        ≡ min
            (ceiling (ltb 0 (length input.findings)) (has_searchable_docs input))
            (raw_score e.results))
      × (raw_score e.results ≤ 1000)
unfolding evaluate_controls summarize
score_is_capped input =
    let bound = raw_score-le (evaluate_results assessment_control_registry input) in
    (apply_ceilings-min (ltb 0 (length input.findings)) (has_searchable_docs input) _ bound, bound)
