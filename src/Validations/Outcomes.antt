-- ===== src/Validations/Outcomes.antt =====
-- What the outcomes of the rules of src/modules/validations/rules mean.
use dpdpos_backend.Prelude.{
  JsText, length-filter-le, none_left, ◌==◌, ℕ, ◌≤◌, ◌<◌, ◌≡◌, ◌*◌, ◌-◌, zero, suc, refl, some,
  none, List, [], ◌∷◌, Memᴰ, any, filter, ltb, inl, inr, Bool-cases, if◌then◌else◌, Bool, true,
  false, not, arith, length, percentage, math_round, multiply, nearest, divide, double,
  percentage-le, percentage-full,
}
use dpdpos_backend.Validations.Rules.{
  DataAssetRecord, ConsentRecord, VendorValidationSnapshot, RuleEvaluationInput,
  RuleEvaluationOutcome, OutcomeStatus, passed, failed, active_assets, is_consented, covers,
  has_retention, active_vendors, vendors_without_dpa, pass, fail, evaluate_notice_present,
  evaluate_consent_present, evaluate_consent_withdrawn_correctly, evaluate_retention_metadata_set,
  evaluate_request_responded_within_sla, evaluate_vendor_dpa_present,
  evaluate_vendor_review_current,
}
use dpdpos_backend.Validations.Registry.{
  Evaluator, notice_present, consent_present, consent_withdrawn_correctly, retention_metadata_set,
  request_responded_within_sla, vendor_dpa_present, vendor_review_current, evaluate,
  resolve_evaluator, rule_code,
}

-- Every registered rule code finds its own evaluator.
pub resolve_evaluator-rule_code : (e : Evaluator) → resolve_evaluator (rule_code e) ≡ some e
unfolding resolve_evaluator rule_code
resolve_evaluator-rule_code notice_present = refl
resolve_evaluator-rule_code consent_present = refl
resolve_evaluator-rule_code consent_withdrawn_correctly = refl
resolve_evaluator-rule_code retention_metadata_set = refl
resolve_evaluator-rule_code request_responded_within_sla = refl
resolve_evaluator-rule_code vendor_dpa_present = refl
resolve_evaluator-rule_code vendor_review_current = refl

abbrev pub is_pass : OutcomeStatus → Bool
is_pass pass = true
is_pass fail = false

nothing_counted : percentage 0 0 ≤ 100
unfolding percentage math_round multiply nearest divide double
nothing_counted = omega arith

none_left_over : (n : ℕ) → 0 - n ≡ 0
none_left_over n = omega arith

share_le : (total failures : ℕ) → percentage (total - failures) total ≤ 100
share_le zero failures = rw (none_left_over failures) nothing_counted
share_le (suc n) failures = percentage-le (suc n - failures) (suc n) (omega arith) (omega arith)

share_full :
    (total failures : ℕ)
    → 0 < failures
    → 200 * failures ≤ total
    → percentage (total - failures) total ≡ 100
share_full total failures h k =
    percentage-full (total - failures) total (omega (arith, h, k)) (omega (arith, h, k))
      (omega (arith, k))

-- A score is a percentage, a PASS has 100, and exactly a FAIL asks for evidence.
abbrev pub IsGraded : RuleEvaluationOutcome → Type 0
IsGraded o =
    (o.score ≤ 100)
    × ((if is_pass o.status then o.score else 100) ≡ 100)
    × (o.evidence_required ≡ not (is_pass o.status))

-- The outcome of every rule on every snapshot is graded: its score is at most 100, a PASS scores
-- 100, and evidence is asked for exactly on a FAIL.
pub evaluate-IsGraded :
    (now : ℕ) (e : Evaluator) (input : RuleEvaluationInput) → IsGraded (evaluate now e input)
unfolding evaluate evaluate_notice_present evaluate_consent_present
    evaluate_consent_withdrawn_correctly evaluate_retention_metadata_set
    evaluate_request_responded_within_sla evaluate_vendor_dpa_present evaluate_vendor_review_current
evaluate-IsGraded now notice_present input = ground arith
evaluate-IsGraded now consent_present input = grind (arith, share_le)
evaluate-IsGraded now consent_withdrawn_correctly input = grind (arith, share_le)
evaluate-IsGraded now retention_metadata_set input = grind (arith, share_le)
evaluate-IsGraded now request_responded_within_sla input = grind (arith, share_le)
evaluate-IsGraded now vendor_dpa_present input = grind (arith, share_le)
evaluate-IsGraded now vendor_review_current input = grind (arith, share_le)

module _ {A : Type 0} where
  pub filter-Memᴰ :
      (f : A → Bool) (xs : List A) (x : A) → Memᴰ x xs → f x ≡ true → Memᴰ x (filter f xs)
  filter-Memᴰ f [] x m h = elim m [ ]
  filter-Memᴰ f (y ∷ ys) x (Memᴰ.head e) h = rw (← e, h) (Memᴰ.head refl)
  filter-Memᴰ f (y ∷ ys) x (Memᴰ.tail m) h = elim (Bool-cases (f y)) [
    | inl k ↦ rw k (Memᴰ.tail (filter-Memᴰ f ys x m h))
    | inr k ↦ rw k (filter-Memᴰ f ys x m h)
  ]

  pub any-Memᴰ : (f : A → Bool) (xs : List A) → any f xs ≡ true → (x : A) × Memᴰ x xs × (f x ≡ true)
  any-Memᴰ f [] h = cc
  any-Memᴰ f (x ∷ xs) h = elim (Bool-cases (f x)) [
    | inl k ↦ (x, Memᴰ.head refl, k)
    | inr k ↦ (let (y, m, e) = any-Memᴰ f xs (ground arith) in (y, Memᴰ.tail m, e))
  ]

not-true : (b : Bool) → not b ≡ false → b ≡ true
not-true b h = ground arith

-- The shape that the rules on assets and vendors share.
module _ {A : Type 0} (bad : A → Bool) (active : List A) (empty done explanation : JsText) where
  abbrev graded : RuleEvaluationOutcome
  graded =
      if length active == 0
      then passed empty
      else if ltb 0 (length (filter bad active))
      then failed (length active) (length (filter bad active)) explanation
      else passed done

  graded_good : (x : A) → graded.status ≡ pass → Memᴰ x active → bad x ≡ false
  graded_good x h m = elim (Bool-cases (ltb 0 (length (filter bad active)))) [
    | inl some_bad ↦ cc (filled some_bad, h)
    | inr no_bad ↦ none_left bad active x no_bad m
  ]
    where
      filled : ltb 0 (length (filter bad active)) ≡ true → graded.status ≡ fail
      filled k = ground (arith, length-filter-le bad active)

  graded_full_score :
      0 < length (filter bad active)
      → 200 * length (filter bad active) ≤ length active
      → (graded.status ≡ fail) × (graded.score ≡ 100)
  graded_full_score h k = ground (arith, share_full (length active) (length (filter bad active)))

module _ (input : RuleEvaluationInput) where
  active_asset :
      (a : DataAssetRecord)
      → Memᴰ a input.data_assets
      → a.deleted_at ≡ none
      → Memᴰ a (active_assets input)
  unfolding active_assets
  active_asset a m live = filter-Memᴰ _ input.data_assets a m (rw live refl)

  -- With consent-present on PASS, every asset that is not deleted has a consent record for it that
  -- is not deleted.
  pub consent_present_covers :
      (a : DataAssetRecord)
      → (evaluate_consent_present input).status ≡ pass
      → Memᴰ a input.data_assets
      → a.deleted_at ≡ none
      → (c : ConsentRecord) × Memᴰ c input.consent_records × (covers a.id c ≡ true)
  unfolding evaluate_consent_present is_consented
  consent_present_covers a h m live = any-Memᴰ (covers a.id) input.consent_records (
      not-true _ (
        graded_good (λ b. not (is_consented input.consent_records b)) (active_assets input) _ _ _ a
          h (active_asset a m live)))

  -- With retention-metadata-set on PASS, every asset that is not deleted has a retention period.
  pub retention_set :
      (a : DataAssetRecord)
      → (evaluate_retention_metadata_set input).status ≡ pass
      → Memᴰ a input.data_assets
      → a.deleted_at ≡ none
      → has_retention a ≡ true
  unfolding evaluate_retention_metadata_set
  retention_set a h m live = not-true _ (
      graded_good (λ b. not (has_retention b)) (active_assets input) _ _ _ a h
        (active_asset a m live))

  -- A FAIL may score 100, as a PASS does: with at least one active vendor without an agreement and
  -- at least two hundred times as many active vendors, vendor-dpa-present fails with score 100.
  pub failed_with_full_score :
      0 < length (vendors_without_dpa input)
      → 200 * length (vendors_without_dpa input) ≤ length (active_vendors input)
      → ((evaluate_vendor_dpa_present input).status ≡ fail)
        × ((evaluate_vendor_dpa_present input).score ≡ 100)
  unfolding evaluate_vendor_dpa_present vendors_without_dpa
  failed_with_full_score h k =
      graded_full_score (λ (v : VendorValidationSnapshot). not v.has_active_dpa)
        (active_vendors input) _ _ _ h k
