-- ===== src/Examples/Questions.antt =====
-- An organization that answers the questionnaire of src/modules/assessments, and permissions.
use dpdpos_backend.Prelude.{
  ◌<◌, String, ◌≡◌, refl, literal, true, none, some, List, [], ◌∷◌, Memᴰ, map, includes_string,
}
use dpdpos_backend.Shared.Errors.{ok}
use dpdpos_backend.Shared.Permissions.{all_permissions, member_permissions, system_role_presets}
use dpdpos_backend.Shared.Presets.{presets_accepted}
use dpdpos_backend.Shared.Guards.{
  require_permission, permissions_of, assert_permissions_in_catalog, distinct_from,
}
use dpdpos_backend.Shared.Catalog.{require_permission_iff, accepted_permissions, AllDistinct}
use dpdpos_backend.Assessments.Engine.{AnswerLite, boolean}
use dpdpos_backend.Assessments.Questionnaire.Types.{QuestionnaireQuestion, boolean_value}
use dpdpos_backend.Assessments.Questionnaire.Catalog.{
  get_questions_for_domain, core_questionnaire, list_questionnaire_stages,
}
use dpdpos_backend.Assessments.Questionnaire.Answers.{
  check_evaluable, missing_required, required_codes, is_missing, find_question, is_answered,
  value_for,
}
use dpdpos_backend.Assessments.Questionnaire.EngineeringAudit.{engineering_audit_questions}
use dpdpos_backend.Assessments.Questionnaire.OrgProfile.{org_profile_questions}
use dpdpos_backend.Assessments.Questionnaire.NoticeConsent.{notice_consent_questions}
use dpdpos_backend.Assessments.Questionnaire.Rights.{rights_questions}
use dpdpos_backend.Assessments.Questionnaire.Vendors.{vendors_questions}
use dpdpos_backend.Assessments.Questionnaire.RetentionBreach.{retention_breach_questions}
use dpdpos_backend.Assessments.Questionnaire.Governance.{governance_questions}
use dpdpos_backend.Assessments.Questionnaire.Required.{evaluable_is_answered}
use dpdpos_backend.Assessments.Questionnaire.Grouping.{stages_lem, IsSorted, IsListed}
use dpdpos_backend.Examples.Services.{officer}

abbrev contact : QuestionnaireQuestion
contact = record {
  code = "Q-AUDIT-CONTACT-CHANNEL";
  stage_id = "engineering_audit";
  stage_label = literal "Engineering audit";
  stage_order = 0;
  label =
      literal
        "Is a clear contact / grievance channel published for data principal rights requests?";
  help_text = literal "Visitors must know where to ask for access, correction, or erasure.";
  value_type = boolean_value;
  options = none;
  required = some true;
  show_if = none;
  industry_domain = none;
}

-- Every question of the core is answered with yes.
abbrev answers : List AnswerLite
answers =
    map
      (λ (q : QuestionnaireQuestion). record { question_code = q.code; value_json = boolean true })
      core_questionnaire

complete : check_evaluable 1 (get_questions_for_domain none) answers ≡ ok tt
unfolding check_evaluable missing_required required_codes is_missing find_question value_for
    get_questions_for_domain core_questionnaire engineering_audit_questions org_profile_questions
    notice_consent_questions rights_questions vendors_questions retention_breach_questions
    governance_questions
complete = refl

contact_is_asked : Memᴰ contact (get_questions_for_domain none)
unfolding get_questions_for_domain core_questionnaire engineering_audit_questions
contact_is_asked = Memᴰ.tail (Memᴰ.head refl)

evaluable_is_answered_example : (0 < 1) × (is_answered answers "Q-AUDIT-CONTACT-CHANNEL" ≡ true)
evaluable_is_answered_example =
    evaluable_is_answered 1 none answers contact complete contact_is_asked refl refl

stages_lem_example :
    IsSorted (list_questionnaire_stages core_questionnaire)
    × ((q : QuestionnaireQuestion)
        → Memᴰ q core_questionnaire
        → IsListed q.stage_id q.code (list_questionnaire_stages core_questionnaire))
stages_lem_example = stages_lem core_questionnaire

require_permission_iff_example :
    (require_permission ("audit:read" ∷ []) (some officer) ≡ ok tt
      → (p : String) → Memᴰ p ("audit:read" ∷ [])
      → includes_string (permissions_of (some officer)) p ≡ true)
    × (((p : String)
          → Memᴰ p ("audit:read" ∷ [])
          → includes_string (permissions_of (some officer)) p ≡ true)
        → require_permission ("audit:read" ∷ []) (some officer) ≡ ok tt)
require_permission_iff_example = require_permission_iff ("audit:read" ∷ []) (some officer)

abbrev wanted : List String
wanted = "audit:read" ∷ "user:read" ∷ "audit:read" ∷ []

accepted_permissions_example :
    AllDistinct ("audit:read" ∷ "user:read" ∷ [])
    × ((p : String)
        → includes_string ("audit:read" ∷ "user:read" ∷ []) p ≡ includes_string wanted p)
    × ((p : String) → Memᴰ p wanted → includes_string all_permissions p ≡ true)
unfolding assert_permissions_in_catalog all_permissions distinct_from
accepted_permissions_example = accepted_permissions wanted ("audit:read" ∷ "user:read" ∷ []) refl

presets_accepted_example : assert_permissions_in_catalog member_permissions ≡ ok member_permissions
unfolding system_role_presets
presets_accepted_example = presets_accepted "MEMBER" member_permissions refl
