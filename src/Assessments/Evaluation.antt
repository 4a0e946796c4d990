-- ===== src/Assessments/Evaluation.antt =====
-- src/modules/assessments/services/control-engine.service.ts: `evaluateControls`. The score is kept in
-- tenths: the integer that the source divides by 10. The points are doubles, as in the source.
use dpdpos_backend.Prelude.{
  ℕ, String, JsText, literal, Bool, true, false, not, ◌&&◌, Option, none, some, List, [], ◌∷◌, map,
  any, filter, length, ltb, ◌==◌, trim, join, Double, double, nearest, add, divide, multiply,
  math_round, if◌then◌else◌,
}
use mathlib.Core.Option
use dpdpos_backend.Assessments.Controls.{AssessmentControlDef, assessment_control_registry}
use dpdpos_backend.Assessments.Engine.{
  ControlEvalStatus, pass, partial, fail, unknown, not_applicable, FindingLite, AnswerLite,
  ControlEvalResult, EvaluationProfile, answer_for,
}
use dpdpos_backend.Assessments.Control.{evaluate_one}

pub record VendorLive : Type 0 where
  pub live_vendor_count : ℕ
  pub vendors_missing_dpa : ℕ

pub record EvaluationInput : Type 0 where
  pub findings : List FindingLite
  pub answers : List AnswerLite
  pub document_texts : List JsText
  pub document_types : Option (List String)
  pub vendor_live : Option VendorLive

-- `scoreKind` and `disclaimer` are constants.
pub record EvaluationSummary : Type 0 where
  pub pass : ℕ
  pub partial : ℕ
  pub fail : ℕ
  pub unknown : ℕ
  pub not_applicable : ℕ
  pub evidence_ceiling_applied : Bool
  pub ceiling_reason : Option JsText
  pub profile : EvaluationProfile

pub record Evaluation : Type 0 where
  pub score : ℕ
  pub results : List ControlEvalResult
  pub summary : EvaluationSummary

-- `===` on statuses.
abbrev pub same_eval_status : ControlEvalStatus → ControlEvalStatus → Bool
same_eval_status pass pass = true
same_eval_status partial partial = true
same_eval_status fail fail = true
same_eval_status unknown unknown = true
same_eval_status not_applicable not_applicable = true
same_eval_status _ _ = false

-- How many results have a status.
unfoldable pub count_status : ControlEvalStatus → List ControlEvalResult → ℕ
count_status status results = length (filter (λ r. same_eval_status r.status status) results)

unfoldable pub scored_results : List ControlEvalResult → List ControlEvalResult
scored_results results = filter (λ r. not (same_eval_status r.status not_applicable)) results

-- 1 for a PASS and 0.45 for a PARTIAL.
abbrev pub add_points : Double → ControlEvalStatus → Double
add_points acc pass = add acc (double 1)
add_points acc partial = add acc (nearest 45 100)
add_points acc _ = acc

unfoldable pub points_from : Double → List ControlEvalResult → Double
points_from acc [] = acc
points_from acc (r ∷ rs) = points_from (add_points acc r.status) rs

-- `Math.round((points / scored.length) * 1000) / 10`, in tenths.
unfoldable pub raw_score : List ControlEvalResult → ℕ
raw_score results =
    let scored = scored_results results in
    if length scored == 0
    then 0
    else math_round
        (multiply (divide (points_from (double 0) scored) (double (length scored))) (double 1000))

-- The score under the ceilings, and the reason for a ceiling that was applied.
unfoldable pub apply_ceilings : Bool → Bool → ℕ → ℕ × Option JsText
apply_ceilings has_any_finding has_searchable_docs score =
    if not has_any_finding && ltb 550 score
    then (
      550,
      some (
          literal
            "Score capped at 55 without CLI technical evidence — questionnaire/docs alone cannot claim high readiness."),
    )
    else if has_any_finding && not has_searchable_docs && ltb 750 score
    then (
      750,
      some (
          literal
            "Score capped at 75 without searchable policy text — upload extractable files or paste extracted text."),
    )
    else (score, none)

unfoldable pub profile_of : EvaluationInput → EvaluationProfile
profile_of input = record {
  processes_children = answer_for input.answers "Q-CHILDREN-DATA";
  cross_border = answer_for input.answers "Q-CROSS-BORDER";
  is_sdf = answer_for input.answers "Q-SDF";
  has_vendors = answer_for input.answers "Q-VENDORS";
  live_vendor_count = Option.map (λ (v : VendorLive). v.live_vendor_count) input.vendor_live;
  vendors_missing_dpa = Option.map (λ (v : VendorLive). v.vendors_missing_dpa) input.vendor_live;
}

unfoldable pub has_searchable_docs : EvaluationInput → Bool
has_searchable_docs input = any (λ t. ltb 40 (length (trim t))) input.document_texts

-- `evaluateControls` over the library of controls.
unfoldable pub evaluate_results :
    List AssessmentControlDef → EvaluationInput → List ControlEvalResult
evaluate_results registry input =
    map
      (λ c.
        evaluate_one c input.findings input.answers (join (10 ∷ []) input.document_texts)
          (Option.get_or input.document_types []) (profile_of input))
      registry

abbrev is_given : {A : Type 0} → Option A → Bool
is_given none = false
is_given (some a) = true

unfoldable pub summarize : EvaluationInput → List ControlEvalResult → Evaluation
summarize input results =
    let (score, reason) =
      apply_ceilings (ltb 0 (length input.findings)) (has_searchable_docs input)
        (raw_score results) in
    record {
      score = score;
      results = results;
      summary = record {
        pass = count_status pass results;
        partial = count_status partial results;
        fail = count_status fail results;
        unknown = count_status unknown results;
        not_applicable = count_status not_applicable results;
        evidence_ceiling_applied = is_given reason;
        ceiling_reason = reason;
        profile = profile_of input;
      };
    }

unfoldable pub evaluate_controls : EvaluationInput → Evaluation
evaluate_controls input = summarize input (evaluate_results assessment_control_registry input)
