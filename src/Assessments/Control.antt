-- ===== src/Assessments/Control.antt =====
-- src/modules/assessments/services/control-engine.service.ts: `evaluateOne`, from the early answers that
-- the profile gives to the rating with its references.
use dpdpos_backend.Prelude.{
  ℕ, String, JsText, literal, decimal, Bool, true, false, not, ◌&&◌, ◌||◌, Option, none, some, List,
  [], ◌∷◌, ◌++◌, map, any, filter, take, leb, ltb, ◌==◌, str_eq, is_some, length, to_lower_case,
  starts_with, includes, includes_string, if◌then◌else◌,
}
use mathlib.Core.Option
use dpdpos_backend.Violations.Types.{RuleSeverity, low, medium, high, critical}
use dpdpos_backend.Assessments.Controls.{AssessmentControlDef}
use dpdpos_backend.Assessments.Engine.{
  ControlEvalStatus, fail, not_applicable, FindingLite, AnswerLite, EvidenceRef, ControlEvalResult,
  EvaluationProfile, Signals, answer_for, document_type_supports_control, is_true, is_false, rate,
}

-- `count ?? 0`.
abbrev pub or_zero : Option ℕ → ℕ
or_zero o = Option.get_or o 0

abbrev pub is_vendor_control : String → Bool
is_vendor_control code = str_eq code "DPDP-VENDOR-DPA" || str_eq code "DPDP-VENDOR-INVENTORY"

abbrev answered :
    AssessmentControlDef → ControlEvalStatus → JsText → String → JsText → ControlEvalResult
answered control status reasoning kind ref = record {
  control_code = control.code;
  status = status;
  severity = control.severity;
  reasoning = reasoning;
  evidence_refs = record { kind = kind; ref = ref } ∷ [];
}

-- The early returns.
unfoldable pub answer_from_profile :
    AssessmentControlDef → EvaluationProfile → Option ControlEvalResult
answer_from_profile control profile =
    if str_eq control.code "DPDP-SDF-DPO" && is_false profile.is_sdf
    then some (
        answered control not_applicable
          (literal "Not classified as SDF — DPO appointment duty not triggered by profile.")
          "questionnaire" (literal "Q-SDF=false"))
    else if is_vendor_control control.code
        && is_false profile.has_vendors
        && or_zero profile.live_vendor_count == 0
    then some (
        answered control not_applicable
          (literal "No vendors/processors reported — vendor controls not applicable.")
          "questionnaire" (literal "Q-VENDORS=false"))
    else if str_eq control.code "DPDP-VENDOR-DPA"
        && ltb 0 (or_zero profile.live_vendor_count)
        && ltb 0 (or_zero profile.vendors_missing_dpa)
    then some (
        answered control fail
          (decimal (or_zero profile.vendors_missing_dpa)
            ++ literal " ACTIVE vendor(s) in the registry lack an ACTIVE DPA.")
          "vendor_registry"
          (literal "missing_dpa=" ++ decimal (or_zero profile.vendors_missing_dpa)))
    else if str_eq control.code "DPDP-VENDOR-INVENTORY"
        && is_true profile.has_vendors
        && or_zero profile.live_vendor_count == 0
    then some (
        answered control fail
          (literal
            "Questionnaire reports vendors, but the vendor registry has no ACTIVE/DRAFT records.")
          "vendor_registry" (literal "count=0"))
    else none

unfoldable pub is_children_sensitive : AssessmentControlDef → EvaluationProfile → Bool
is_children_sensitive control profile =
    is_true profile.processes_children
    && (starts_with (literal control.code) (literal "DPDP-CONSENT")
        || str_eq control.code "DPDP-CONSENT-NOTICE")

unfoldable pub is_cross_border_sensitive : AssessmentControlDef → EvaluationProfile → Bool
is_cross_border_sensitive control profile =
    is_true profile.cross_border
    && (starts_with (literal control.code) (literal "DPDP-VENDOR")
        || str_eq control.code "DPDP-CONSENT-NOTICE")

-- The severity of a control that the profile makes sensitive is one step higher.
unfoldable pub raise_severity : Bool → RuleSeverity → RuleSeverity
raise_severity false severity = severity
raise_severity true low = low
raise_severity true medium = high
raise_severity true high = critical
raise_severity true critical = critical

unfoldable pub matched_findings : AssessmentControlDef → List FindingLite → List FindingLite
matched_findings control findings =
    filter
      (λ f.
        includes_string f.control_candidates control.code
        || includes_string control.finding_types f.finding_type)
      findings

unfoldable pub keyword_hit : AssessmentControlDef → JsText → Bool
keyword_hit control doc_text =
    any (λ kw. includes (to_lower_case doc_text) (to_lower_case kw)) control.doc_keywords

abbrev is_null : Option Bool → Bool
is_null o = not (is_some o)

unfoldable pub signals_of :
    AssessmentControlDef
    → List FindingLite
    → List AnswerLite
    → JsText
    → List String
    → EvaluationProfile
    → Signals
signals_of control findings answers doc_text document_types profile =
    let matched = matched_findings control findings in
    let hit = keyword_hit control doc_text in
    let values = map (answer_for answers) control.question_codes in
    record {
      has_tech = ltb 0 (length matched);
      strong_tech = any (λ (f : FindingLite). leb 850000 f.confidence) matched;
      strong_doc = hit;
      weak_doc = is_some (document_type_supports_control control.code document_types) && not hit;
      positive_q = any is_true values;
      negative_q = any is_false values;
      unanswered = not (any is_some values);
      children_sensitive = is_children_sensitive control profile;
      cross_border_sensitive = is_cross_border_sensitive control profile;
    }

abbrev finding_ref : FindingLite → EvidenceRef
finding_ref f = record {
  kind = "finding";
  ref = literal f.finding_type ++ (literal "@" ++ f.location);
}

unfoldable pub document_refs : Bool → Option String → List EvidenceRef
document_refs true none = record { kind = "document"; ref = literal "keyword-match" } ∷ []
document_refs true (some t) =
    record { kind = "document"; ref = literal t ++ literal ":keyword" } ∷ []
document_refs false none = []
document_refs false (some t) =
    record { kind = "document_type"; ref = literal t ++ literal ":no-text" } ∷ []

unfoldable pub answer_ref : String → Option Bool → List EvidenceRef
answer_ref code none = []
answer_ref code (some b) =
    record {
      kind = "questionnaire";
      ref = literal code ++ (if b then literal "=true" else literal "=false");
    }
    ∷ []

unfoldable pub answer_refs : List AnswerLite → List String → List EvidenceRef
unfolding answer_ref
answer_refs answers [] = []
answer_refs answers (code ∷ codes) =
    answer_ref code (answer_for answers code) ++ answer_refs answers codes

abbrev profile_ref : Bool → JsText → List EvidenceRef
profile_ref sensitive ref = if sensitive then record { kind = "profile"; ref = ref } ∷ [] else []

-- The rating with its severity and references.
unfoldable pub rate_control :
    AssessmentControlDef
    → List FindingLite
    → List AnswerLite
    → JsText
    → List String
    → EvaluationProfile
    → ControlEvalResult
rate_control control findings answers doc_text document_types profile =
    let signals = signals_of control findings answers doc_text document_types profile in
    record {
      control_code = control.code;
      status = (rate signals).0;
      severity =
          raise_severity (signals.children_sensitive || signals.cross_border_sensitive)
            control.severity;
      reasoning = (rate signals).1;
      evidence_refs =
          map finding_ref (take 8 (matched_findings control findings))
          ++ (document_refs signals.strong_doc
                (document_type_supports_control control.code document_types)
              ++ (answer_refs answers control.question_codes
                  ++ (profile_ref signals.children_sensitive (literal "Q-CHILDREN-DATA=true")
                      ++ profile_ref signals.cross_border_sensitive
                          (literal "Q-CROSS-BORDER=true"))));
    }

unfoldable pub evaluate_one :
    AssessmentControlDef
    → List FindingLite
    → List AnswerLite
    → JsText
    → List String
    → EvaluationProfile
    → ControlEvalResult
evaluate_one control findings answers doc_text document_types profile =
    Option.get_or (answer_from_profile control profile)
      (rate_control control findings answers doc_text document_types profile)
