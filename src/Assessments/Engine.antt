-- ===== src/Assessments/Engine.antt =====
-- src/modules/assessments/services/control-engine.service.ts: the rating of one control. A text of
-- the questionnaire is compared in lower case.
use dpdpos_backend.Prelude.{
  ℕ, String, JsText, literal, Bool, true, false, not, ◌&&◌, ◌||◌, Option, none, some, List, [], ◌∷◌,
  any, str_eq, text_eq, to_lower_case, includes_string, if◌then◌else◌,
}
use dpdpos_backend.Violations.Types.{RuleSeverity}
use dpdpos_backend.Assessments.Controls.{document_type_control_hints}

pub data ControlEvalStatus : Type 0 where
  pass partial fail unknown not_applicable : ControlEvalStatus

-- A finding of the command line tool; its confidence is kept in millionths.
pub record FindingLite : Type 0 where
  pub id : String
  pub finding_type : String
  pub control_candidates : List String
  pub location : JsText
  pub confidence : ℕ

-- A JSON value, as far as the engine tells values apart.
pub data AnswerValue : Type 0 where
  boolean : Bool → AnswerValue
  text : JsText → AnswerValue
  other : AnswerValue

pub record AnswerLite : Type 0 where
  pub question_code : String
  pub value_json : AnswerValue

pub record EvidenceRef : Type 0 where
  pub kind : String
  pub ref : JsText

pub record ControlEvalResult : Type 0 where
  pub control_code : String
  pub status : ControlEvalStatus
  pub severity : RuleSeverity
  pub reasoning : JsText
  pub evidence_refs : List EvidenceRef

pub record EvaluationProfile : Type 0 where
  pub processes_children : Option Bool
  pub cross_border : Option Bool
  pub is_sdf : Option Bool
  pub has_vendors : Option Bool
  pub live_vendor_count : Option ℕ
  pub vendors_missing_dpa : Option ℕ

abbrev one_of : JsText → List JsText → Bool
one_of s xs = any (λ x. text_eq x s) xs

unfoldable pub truthy_answer : AnswerValue → Option Bool
truthy_answer (boolean b) = some b
truthy_answer (text s) =
    let v = to_lower_case s in
    if one_of v (literal "true" ∷ literal "yes" ∷ literal "y" ∷ literal "1" ∷ [])
    then some true
    else if one_of v (literal "false" ∷ literal "no" ∷ literal "n" ∷ literal "0" ∷ [])
    then some false
    else none
truthy_answer other = none

-- `truthyAnswer(answers.find(...)?.valueJson)`.
unfoldable pub answer_for : List AnswerLite → String → Option Bool
unfolding truthy_answer
answer_for [] code = none
answer_for (a ∷ answers) code =
    if str_eq a.question_code code then truthy_answer a.value_json else answer_for answers code

unfoldable pub document_type_supports_control : String → List String → Option String
document_type_supports_control code [] = none
document_type_supports_control code (t ∷ types) =
    if includes_string (document_type_control_hints t) code
    then some t
    else document_type_supports_control code types

abbrev pub is_true : Option Bool → Bool
is_true (some true) = true
is_true _ = false

abbrev pub is_false : Option Bool → Bool
is_false (some false) = true
is_false _ = false

-- What the rating of a control looks at.
pub record Signals : Type 0 where
  pub has_tech : Bool
  pub strong_tech : Bool
  pub strong_doc : Bool
  pub weak_doc : Bool
  pub positive_q : Bool
  pub negative_q : Bool
  pub unanswered : Bool
  pub children_sensitive : Bool
  pub cross_border_sensitive : Bool

-- The chain of conditions, with the reasons that it gives.
unfoldable pub rate : Signals → ControlEvalStatus × JsText
rate s =
    if s.negative_q && not s.has_tech && not s.strong_doc
    then (
      fail,
      literal
          "Questionnaire indicates the control is not implemented, with no policy text or technical findings to contradict that.",
    )
    else if (s.has_tech && (s.positive_q || s.strong_doc))
        || (s.strong_tech && s.strong_doc)
        || (s.strong_doc && s.positive_q && not s.children_sensitive)
    then (if s.children_sensitive && not s.has_tech
        then (
          partial,
          literal
              "Children’s data processing raises the bar: policy + questionnaire are present, but CLI technical corroboration is still required for PASS.",
        )
        else if s.cross_border_sensitive && not s.has_tech && not s.strong_doc
        then (
          partial,
          literal
              "Cross-border processing flagged — need transferable safeguards evidenced in policy text or technical controls.",
        )
        else (
          pass,
          literal
              "Corroborated readiness: technical and/or searchable policy evidence supports the questionnaire answer. Not a legal certification.",
        ))
    else if s.positive_q && not s.has_tech && not s.strong_doc
    then (
      partial,
      if s.weak_doc
          then literal
              "Self-attested with a typed document file, but no searchable extracted text — paste OCR/text or upload a text-extractable file for stronger credit."
          else literal
              "Self-attested via questionnaire only. Upload policy text and/or submit CLI findings to raise this beyond PARTIAL.",
    )
    else if s.has_tech && not s.positive_q && not s.strong_doc
    then (
      partial,
      literal
          "CLI findings suggest technical capability, but questionnaire/policy corroboration is missing.",
    )
    else if s.strong_doc && not s.positive_q && not s.negative_q
    then (
      partial,
      literal
          "Searchable policy text matches this control, but questionnaire answer is incomplete.",
    )
    else if s.weak_doc
    then (
      partial,
      literal
          "A document was tagged for this control, but without extracted text the engine cannot verify content.",
    )
    else if s.unanswered && not s.has_tech && not s.strong_doc
    then (unknown, literal "No questionnaire answer, policy text, or CLI finding for this control.")
    else (
      unknown,
      literal "Insufficient evidence across questionnaire, policy text, and CLI findings.",
    )
