-- ===== src/Examples/Assessing.antt =====
-- The rating of src/modules/assessments and the rules of src/modules/validations on small inputs.
use dpdpos_backend.Prelude.{
  ℕ, ◌≤◌, ◌≡◌, ◌⊎◌, refl, literal, true, false, ◌||◌, none, some, List, [], ◌∷◌, min, arith, Memᴰ,
  includes, starts_with, to_lower_case, zero, suc, percentage, ◌++◌, add, multiply, divide, double,
  math_round, nearest, round_even, scale_from, trim, trim_start, is_space,
}
use dpdpos_backend.Violations.Types.{high}
use dpdpos_backend.Assessments.Controls.{AssessmentControlDef}
use dpdpos_backend.Assessments.Engine.{
  FindingLite, AnswerLite, boolean, EvaluationProfile, ControlEvalStatus, ControlEvalResult,
  partial, fail, pass, unknown, answer_for, truthy_answer, rate,
}
use dpdpos_backend.Assessments.Control.{
  evaluate_one, answer_from_profile, keyword_hit, is_children_sensitive, matched_findings,
  signals_of, rate_control, is_cross_border_sensitive,
}
use dpdpos_backend.Assessments.Evaluation.{
  EvaluationInput, evaluate_controls, has_searchable_docs, raw_score, points_from, scored_results,
}
use dpdpos_backend.Assessments.Corroboration.{
  pass_needs_corroboration, children_policy_unrated, cross_border_ignored, said_yes, has_findings,
}
use dpdpos_backend.Assessments.Score.{score_is_capped, ceiling}
use dpdpos_backend.Validations.Rules.{
  DataAssetRecord, ConsentRecord, granted, VendorValidationSnapshot, RuleEvaluationInput,
  evaluate_consent_present, evaluate_retention_metadata_set, evaluate_vendor_dpa_present, covers,
  has_retention, active_vendors, vendors_without_dpa, fail as rule_fail, active_assets,
  is_consented,
}
use dpdpos_backend.Validations.Registry.{
  consent_present, vendor_dpa_present, evaluate, resolve_evaluator, rule_code,
}
use dpdpos_backend.Validations.Outcomes.{
  resolve_evaluator-rule_code, evaluate-IsGraded, IsGraded, consent_present_covers, retention_set,
  failed_with_full_score,
}

abbrev collecting : AssessmentControlDef
collecting = record {
  code = "DPDP-CONSENT-COLLECT";
  category = literal "Consent";
  title = literal "Consent collected before processing";
  severity = high;
  question_codes = "Q-CONSENT-COLLECT" ∷ [];
  finding_types = "consent_reference" ∷ [];
  doc_keywords = literal "consent" ∷ [];
}

abbrev finding : FindingLite
finding = record {
  id = "finding-1";
  finding_type = "consent_reference";
  control_candidates = [];
  location = literal "src/form.ts";
  confidence = 900000;
}

abbrev yes_answer : AnswerLite
yes_answer = record { question_code = "Q-CONSENT-COLLECT"; value_json = boolean true }

abbrev of_children : EvaluationProfile
of_children = record {
  processes_children = some true;
  cross_border = none;
  is_sdf = none;
  has_vendors = none;
  live_vendor_count = none;
  vendors_missing_dpa = none;
}

corroborated :
    (evaluate_one collecting
      (finding ∷ [])
      (yes_answer ∷ [])
      (literal "Consent")
      []
      of_children).status
    ≡ pass
unfolding evaluate_one answer_from_profile rate_control rate signals_of matched_findings keyword_hit
    answer_for truthy_answer includes starts_with to_lower_case is_children_sensitive
    is_cross_border_sensitive literal
corroborated = refl

pass_needs_corroboration_example :
    ((has_findings collecting (finding ∷ []) (yes_answer ∷ []) (literal "Consent") [] of_children
        ≡ true)
      × ((said_yes collecting (finding ∷ []) (yes_answer ∷ []) (literal "Consent") [] of_children
            || keyword_hit collecting (literal "Consent"))
          ≡ true))
    ⊎ ((keyword_hit collecting (literal "Consent") ≡ true)
        × (said_yes collecting (finding ∷ []) (yes_answer ∷ []) (literal "Consent") [] of_children
            ≡ true)
        × (is_children_sensitive collecting of_children ≡ false))
pass_needs_corroboration_example =
    pass_needs_corroboration collecting (finding ∷ []) (yes_answer ∷ []) (literal "Consent") []
      of_children corroborated

children_policy_unrated_example :
    (evaluate_one collecting []
      (yes_answer ∷ [])
      (literal "Our consent form")
      []
      of_children).status
    ≡ unknown
unfolding answer_from_profile keyword_hit includes starts_with to_lower_case is_children_sensitive
    answer_for truthy_answer matched_findings literal
children_policy_unrated_example =
    children_policy_unrated collecting [] (yes_answer ∷ []) (literal "Our consent form") []
      of_children refl refl refl refl refl

cross_border_ignored_example :
    let s = signals_of collecting (finding ∷ []) [] (literal "Consent") [] of_children in
    rate (record s { cross_border_sensitive = true }) ≡ rate s
cross_border_ignored_example =
    cross_border_ignored
      (signals_of collecting (finding ∷ []) [] (literal "Consent") [] of_children) true

abbrev submission : EvaluationInput
submission = record {
  findings = finding ∷ [];
  answers = yes_answer ∷ [];
  document_texts = [];
  document_types = none;
  vendor_live = none;
}

score_is_capped_example :
    let e = evaluate_controls submission in
    (e.score ≡ min (ceiling true (has_searchable_docs submission)) (raw_score e.results))
    × (raw_score e.results ≤ 1000)
score_is_capped_example = score_is_capped submission

abbrev asset : DataAssetRecord
asset = record {
  id = "asset-1";
  asset_name = literal "Customers";
  retention_period = some (literal "P3Y");
  deleted_at = none;
}

abbrev consent : ConsentRecord
consent = record {
  data_asset_id = some "asset-1";
  consent_state = granted;
  withdrawn_at = none;
  deleted_at = none;
}

abbrev vendor_with : VendorValidationSnapshot
vendor_with = record {
  id = "vendor-1";
  name = literal "Mailer";
  status = "ACTIVE";
  criticality = "LOW";
  has_active_dpa = true;
  latest_review_outcome = none;
}

abbrev vendor_without : VendorValidationSnapshot
vendor_without = record vendor_with { has_active_dpa = false }

abbrev copies : ℕ → VendorValidationSnapshot → List VendorValidationSnapshot
copies zero v = []
copies (suc n) v = v ∷ copies n v

abbrev snapshot : RuleEvaluationInput
snapshot = record {
  organization_id = "org-1";
  data_assets = asset ∷ [];
  notices = [];
  consent_records = consent ∷ [];
  data_subject_requests = [];
  vendors = some (vendor_without ∷ copies 199 vendor_with);
}

resolve_evaluator-rule_code_example :
    resolve_evaluator (rule_code consent_present) ≡ some consent_present
resolve_evaluator-rule_code_example = resolve_evaluator-rule_code consent_present

evaluate-IsGraded_example : IsGraded (evaluate 1000 vendor_dpa_present snapshot)
evaluate-IsGraded_example = evaluate-IsGraded 1000 vendor_dpa_present snapshot

consent_present_covers_example :
    (c : ConsentRecord) × Memᴰ c snapshot.consent_records × (covers "asset-1" c ≡ true)
unfolding evaluate_consent_present active_assets is_consented
consent_present_covers_example = consent_present_covers snapshot asset refl (Memᴰ.head refl) refl

retention_set_example : has_retention asset ≡ true
unfolding evaluate_retention_metadata_set active_assets has_retention trim trim_start literal
    is_space
retention_set_example = retention_set snapshot asset refl (Memᴰ.head refl) refl

failed_with_full_score_example :
    ((evaluate_vendor_dpa_present snapshot).status ≡ rule_fail)
    × ((evaluate_vendor_dpa_present snapshot).score ≡ 100)
unfolding active_vendors vendors_without_dpa
failed_with_full_score_example = failed_with_full_score snapshot (omega arith) (omega arith)

abbrev rated : ControlEvalStatus → ControlEvalResult
rated status = record {
  control_code = "CTRL";
  status = status;
  severity = high;
  reasoning = [];
  evidence_refs = [];
}

abbrev times : ℕ → ControlEvalStatus → List ControlEvalResult
times zero status = []
times (suc n) status = rated status ∷ times n status

-- Seven of sixteen in order and eight in part are 66.25 in exact arithmetic, and 66.2 in doubles.
raw_score-seven_of_sixteen : raw_score (times 7 pass ++ (times 8 partial ++ times 1 fail)) ≡ 662
unfolding raw_score points_from add multiply divide double math_round nearest scored_results
    round_even scale_from
raw_score-seven_of_sixteen = refl

-- 57 of 200 are 28.5 percent in exact arithmetic.
percentage-fifty_seven : percentage 57 200 ≡ 28
unfolding percentage multiply divide double math_round nearest round_even scale_from
percentage-fifty_seven = refl
