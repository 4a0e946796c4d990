-- ===== src/Assessments/Corroboration.antt =====
-- What a rating needs: src/modules/assessments/services/control-engine.service.ts, `evaluateOne`.
use dpdpos_backend.Prelude.{
  String, JsText, ◌≡◌, ◌⊎◌, inl, inr, sym, ap, ◌∙◌, Bool, true, false, not, ◌&&◌, ◌||◌, none, some,
  List, [], ◌∷◌, leb, map, any, length, ltb, arith, Option-cases,
}
use dpdpos_backend.Assessments.Controls.{AssessmentControlDef}
use dpdpos_backend.Assessments.Engine.{
  pass, unknown, FindingLite, AnswerLite, ControlEvalResult, EvaluationProfile, Signals, is_true,
  answer_for, rate,
}
use dpdpos_backend.Assessments.Control.{
  answer_from_profile, signals_of, matched_findings, keyword_hit, is_children_sensitive,
  evaluate_one, rate_control,
}
use mathlib.Core.Option

rate_pass :
    (s : Signals)
    → (rate s).0 ≡ pass
    → ((s.has_tech && (s.positive_q || s.strong_doc))
        || (s.strong_tech && s.strong_doc)
        || (s.strong_doc && s.positive_q && not s.children_sensitive))
      ≡ true
unfolding rate
rate_pass s h = ground arith

-- The condition on cross-border processing never decides: whatever it says, a control is rated the
-- same, and for the same reason.
pub cross_border_ignored :
    (s : Signals) (b : Bool) → rate (record s { cross_border_sensitive = b }) ≡ rate s
unfolding rate
cross_border_ignored s b = ground arith

rated_children :
    (s : Signals)
    → s.has_tech ≡ false
    → s.strong_tech ≡ false
    → s.strong_doc ≡ true
    → s.weak_doc ≡ false
    → s.positive_q ≡ true
    → s.children_sensitive ≡ true
    → (rate s).0 ≡ unknown
unfolding rate
rated_children s a b c d e f = ground arith

not_pass :
    (control : AssessmentControlDef) (profile : EvaluationProfile) (r : ControlEvalResult)
    → answer_from_profile control profile ≡ some r
    → r.status ≡ pass
    → ⊥
unfolding answer_from_profile
not_pass control profile r h e = ground arith

any-nonempty :
    {A : Type 0} (f : A → Bool) (xs : List A) → any f xs ≡ true → ltb 0 (length xs) ≡ true
any-nonempty f [] h = cc
any-nonempty f (x ∷ xs) h = ground arith

module _ (control : AssessmentControlDef) (findings : List FindingLite) (answers : List AnswerLite)
    (doc_text : JsText) (document_types : List String) (profile : EvaluationProfile) where
  abbrev result : ControlEvalResult
  result = evaluate_one control findings answers doc_text document_types profile

  abbrev signals : Signals
  signals = signals_of control findings answers doc_text document_types profile

  -- Some question of the control is answered with yes.
  abbrev pub said_yes : Bool
  said_yes = any is_true (map (answer_for answers) control.question_codes)

  abbrev pub has_findings : Bool
  has_findings = ltb 0 (length (matched_findings control findings))

  rated : answer_from_profile control profile ≡ none → result.status ≡ (rate signals).0
  unfolding evaluate_one rate_control
  rated e =
      ap
        (λ o.
          (Option.get_or o
            (rate_control control findings answers doc_text document_types profile)).status)
        e

  from_profile : (r : ControlEvalResult) → answer_from_profile control profile ≡ some r → result ≡ r
  unfolding evaluate_one
  from_profile r e =
      ap
        (λ o.
          Option.get_or o (rate_control control findings answers doc_text document_types profile))
        e

  -- A control is rated PASS only with corroboration: a technical finding for it together with a
  -- yes in the questionnaire or a keyword in the documents, or a keyword together with a yes where
  -- the control is not one that processing of children's data makes sensitive.
  pub pass_needs_corroboration :
      result.status ≡ pass
      → ((has_findings ≡ true) × ((said_yes || keyword_hit control doc_text) ≡ true))
        ⊎ ((keyword_hit control doc_text ≡ true)
            × (said_yes ≡ true)
            × (is_children_sensitive control profile ≡ false))
  unfolding signals_of
  pass_needs_corroboration h = elim (Option-cases (answer_from_profile control profile)) [
    | inl e ↦ ground (
      arith,
      rate_pass signals (sym (rated e) ∙ h),
      any-nonempty (λ (f : FindingLite). leb 850000 f.confidence)
          (matched_findings control findings),
    )
    | inr (r, e) ↦ absurd (
        not_pass control profile r e
          (ap (λ (x : ControlEvalResult). x.status) (sym (from_profile r e)) ∙ h))
  ]

  -- Where processing of children's data makes a control sensitive and the profile does not answer
  -- for it, a keyword in the documents and a yes in the questionnaire, without a technical finding,
  -- leave the control UNKNOWN, as if nothing had been handed in.
  pub children_policy_unrated :
      answer_from_profile control profile ≡ none
      → is_children_sensitive control profile ≡ true
      → keyword_hit control doc_text ≡ true
      → said_yes ≡ true
      → has_findings ≡ false
      → result.status ≡ unknown
  unfolding signals_of
  children_policy_unrated e sensitive hit yes' silent =
      rated e
      ∙ ground (
        arith,
        rated_children signals,
        any-nonempty (λ (f : FindingLite). leb 850000 f.confidence)
            (matched_findings control findings),
      )
