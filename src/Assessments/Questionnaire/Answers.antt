-- ===== src/Assessments/Questionnaire/Answers.antt =====
-- The check of required answers of `evaluate` in src/modules/assessments/services/assessment.service.ts.
use dpdpos_backend.Prelude.{
  ℕ, String, literal, Bool, true, false, not, ◌&&◌, Option, none, some, List, [], ◌∷◌, ◌++◌, map,
  filter, any, ltb, ◌==◌, str_eq, text_eq, length, take, join, if◌then◌else◌,
}
use dpdpos_backend.Shared.Errors.{Result, ok, err, app, validation_failed}
use dpdpos_backend.Assessments.Engine.{AnswerValue, boolean, text, AnswerLite}
use dpdpos_backend.Assessments.Questionnaire.Types.{ShowIf, QuestionnaireQuestion}

-- `===` on the JSON value of an answer, which may be missing.
abbrev pub equals_value : AnswerValue → Option AnswerValue → Bool
equals_value v none = false
equals_value (boolean true) (some (boolean b)) = b
equals_value (boolean false) (some (boolean b)) = not b
equals_value (text s) (some (text t)) = text_eq s t
equals_value _ (some _) = false

-- `answers.find(...)?.valueJson`.
unfoldable pub value_for : List AnswerLite → String → Option AnswerValue
value_for [] code = none
value_for (a ∷ answers) code =
    if str_eq a.question_code code then some a.value_json else value_for answers code

unfoldable pub find_question : List QuestionnaireQuestion → String → Option QuestionnaireQuestion
find_question [] code = none
find_question (q ∷ questions) code =
    if str_eq q.code code then some q else find_question questions code

abbrev pub is_required : Option Bool → Bool
is_required none = true
is_required (some b) = b

unfoldable pub required_codes : List QuestionnaireQuestion → List String
required_codes questions =
    map (λ (q : QuestionnaireQuestion). q.code)
      (filter (λ (q : QuestionnaireQuestion). is_required q.required) questions)

abbrev pub is_shown : List AnswerLite → Option ShowIf → Bool
is_shown answers none = true
is_shown answers (some s) = equals_value s.equals (value_for answers s.code)

abbrev pub is_answered : List AnswerLite → String → Bool
is_answered answers code = any (λ (a : AnswerLite). str_eq a.question_code code) answers

unfoldable pub is_missing : List QuestionnaireQuestion → List AnswerLite → String → Bool
is_missing questions answers code = elim (find_question questions code) as (λ _. Bool) [
  | none ↦ false
  | some q ↦ is_shown answers q.show_if && not (is_answered answers code)
]

unfoldable pub missing_required : List QuestionnaireQuestion → List AnswerLite → List String
missing_required questions answers =
    filter (is_missing questions answers) (required_codes questions)

-- The two guards of `evaluate`, for a number of documents that are ready.
unfoldable pub check_evaluable :
    ℕ → List QuestionnaireQuestion → List AnswerLite → Result (Unit {0})
check_evaluable ready questions answers =
    let missing = missing_required questions answers in
    if ready == 0
    then err (
        app (
          validation_failed
            (literal "Upload at least one READY policy document before evaluating readiness.")))
    else if ltb 0 (length missing)
    then err (
        app (
          validation_failed (
            literal "Complete required questionnaire answers before evaluate (missing: "
            ++ (join (literal ", ") (map literal (take 5 missing)) ++ literal ")."))))
    else ok tt
