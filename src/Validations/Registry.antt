-- ===== src/Validations/Registry.antt =====
-- src/modules/validations/domain/rule.registry.ts: the registered evaluators, found by rule code.
use dpdpos_backend.Prelude.{ℕ, String, Option, none, some, List, [], ◌∷◌, str_eq, if◌then◌else◌}
use dpdpos_backend.Validations.Rules.{
  RuleEvaluationInput, RuleEvaluationOutcome, evaluate_notice_present, evaluate_consent_present,
  evaluate_consent_withdrawn_correctly, evaluate_retention_metadata_set,
  evaluate_request_responded_within_sla, evaluate_vendor_dpa_present,
  evaluate_vendor_review_current,
}

pub data Evaluator : Type 0 where
  notice_present consent_present consent_withdrawn_correctly : Evaluator
  retention_metadata_set request_responded_within_sla : Evaluator
  vendor_dpa_present vendor_review_current : Evaluator

unfoldable pub rule_code : Evaluator → String
rule_code notice_present = "notice-present"
rule_code consent_present = "consent-present"
rule_code consent_withdrawn_correctly = "consent-withdrawn-correctly"
rule_code retention_metadata_set = "retention-metadata-set"
rule_code request_responded_within_sla = "request-responded-within-sla"
rule_code vendor_dpa_present = "vendor-dpa-present"
rule_code vendor_review_current = "vendor-review-current"

unfoldable pub evaluators : List Evaluator
evaluators =
    notice_present ∷ consent_present ∷ consent_withdrawn_correctly ∷ retention_metadata_set
    ∷ request_responded_within_sla ∷ vendor_dpa_present ∷ vendor_review_current ∷ []

-- `e.evaluate(input)`; the deadlines are held against `now`.
unfoldable pub evaluate : ℕ → Evaluator → RuleEvaluationInput → RuleEvaluationOutcome
evaluate now notice_present = evaluate_notice_present
evaluate now consent_present = evaluate_consent_present
evaluate now consent_withdrawn_correctly = evaluate_consent_withdrawn_correctly
evaluate now retention_metadata_set = evaluate_retention_metadata_set
evaluate now request_responded_within_sla = evaluate_request_responded_within_sla now
evaluate now vendor_dpa_present = evaluate_vendor_dpa_present
evaluate now vendor_review_current = evaluate_vendor_review_current

unfoldable pub find_evaluator : List Evaluator → String → Option Evaluator
unfolding rule_code
find_evaluator [] code = none
find_evaluator (e ∷ es) code =
    let later = find_evaluator es code in
    elim later [ none ↦ if str_eq (rule_code e) code then some e else none | some last ↦ some last ]

unfoldable pub resolve_evaluator : String → Option Evaluator
unfolding evaluators find_evaluator
resolve_evaluator code = find_evaluator evaluators code
