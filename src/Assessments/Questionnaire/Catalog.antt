-- ===== src/Assessments/Questionnaire/Catalog.antt =====
-- src/modules/assessments/domain/questionnaire-catalog.ts. The industry of an organization is given
-- by its key.
use dpdpos_backend.Prelude.{
  ℕ, String, JsText, literal, Option, none, some, List, [], ◌∷◌, ◌++◌, leb, str_eq, if◌then◌else◌,
}
use dpdpos_backend.Assessments.Questionnaire.Types.{
  IndustryDomainKey, banking_finance, healthcare, ecommerce_retail, education_edtech, it_saas,
  telecom, automobile, food_manufacturing, hotels, space_technology, industry_domain_labels,
  QuestionnaireQuestion,
}
use dpdpos_backend.Assessments.Questionnaire.EngineeringAudit.{engineering_audit_questions}
use dpdpos_backend.Assessments.Questionnaire.OrgProfile.{org_profile_questions}
use dpdpos_backend.Assessments.Questionnaire.NoticeConsent.{notice_consent_questions}
use dpdpos_backend.Assessments.Questionnaire.Rights.{rights_questions}
use dpdpos_backend.Assessments.Questionnaire.Vendors.{vendors_questions}
use dpdpos_backend.Assessments.Questionnaire.RetentionBreach.{retention_breach_questions}
use dpdpos_backend.Assessments.Questionnaire.Governance.{governance_questions}
use dpdpos_backend.Assessments.Questionnaire.Automobile.{automobile_questions}
use dpdpos_backend.Assessments.Questionnaire.BankingFinance.{banking_finance_questions}
use dpdpos_backend.Assessments.Questionnaire.EcommerceRetail.{ecommerce_retail_questions}
use dpdpos_backend.Assessments.Questionnaire.EducationEdtech.{education_edtech_questions}
use dpdpos_backend.Assessments.Questionnaire.FoodManufacturing.{food_manufacturing_questions}
use dpdpos_backend.Assessments.Questionnaire.Healthcare.{healthcare_questions}
use dpdpos_backend.Assessments.Questionnaire.Hotels.{hotels_questions}
use dpdpos_backend.Assessments.Questionnaire.ItSaas.{it_saas_questions}
use dpdpos_backend.Assessments.Questionnaire.SpaceTechnology.{space_technology_questions}
use dpdpos_backend.Assessments.Questionnaire.Telecom.{telecom_questions}

-- The stages in the order of the file.
unfoldable pub core_questionnaire : List QuestionnaireQuestion
core_questionnaire =
    engineering_audit_questions
    ++ (org_profile_questions
        ++ (notice_consent_questions
            ++ (rights_questions
                ++ (vendors_questions ++ (retention_breach_questions ++ governance_questions)))))

unfoldable pub industry_packs : IndustryDomainKey → List QuestionnaireQuestion
industry_packs banking_finance = banking_finance_questions
industry_packs healthcare = healthcare_questions
industry_packs ecommerce_retail = ecommerce_retail_questions
industry_packs education_edtech = education_edtech_questions
industry_packs it_saas = it_saas_questions
industry_packs telecom = telecom_questions
industry_packs automobile = automobile_questions
industry_packs food_manufacturing = food_manufacturing_questions
industry_packs hotels = hotels_questions
industry_packs space_technology = space_technology_questions

unfoldable pub get_questions_for_domain : Option IndustryDomainKey → List QuestionnaireQuestion
get_questions_for_domain none = core_questionnaire
get_questions_for_domain (some domain) = core_questionnaire ++ industry_packs domain

pub record Stage : Type 0 where
  pub stage_id : String
  pub stage_label : JsText
  pub stage_order : ℕ
  pub question_codes : List String

abbrev pub stage_of : QuestionnaireQuestion → Stage
stage_of q = record {
  stage_id = q.stage_id;
  stage_label = q.stage_label;
  stage_order = q.stage_order;
  question_codes = q.code ∷ [];
}

-- The turn of the loop for one question; the map keeps the order in which stages came first.
unfoldable pub add_question : List Stage → QuestionnaireQuestion → List Stage
add_question [] q = stage_of q ∷ []
add_question (s ∷ stages) q =
    let rest = add_question stages q in
    if str_eq s.stage_id q.stage_id
    then record s { question_codes = s.question_codes ++ (q.code ∷ []) } ∷ stages
    else s ∷ rest

unfoldable pub group_questions : List QuestionnaireQuestion → List Stage → List Stage
group_questions [] stages = stages
group_questions (q ∷ questions) stages = group_questions questions (add_question stages q)

-- A stable sort by the order of the stage.
unfoldable pub insert_stage : Stage → List Stage → List Stage
insert_stage s [] = s ∷ []
insert_stage s (t ∷ stages) =
    let rest = insert_stage s stages in
    if leb s.stage_order t.stage_order then s ∷ t ∷ stages else t ∷ rest

unfoldable pub sort_stages : List Stage → List Stage
unfolding insert_stage
sort_stages [] = []
sort_stages (s ∷ stages) = insert_stage s (sort_stages stages)

unfoldable pub list_questionnaire_stages : List QuestionnaireQuestion → List Stage
list_questionnaire_stages questions = sort_stages (group_questions questions [])

pub record CatalogPayload : Type 0 where
  pub questions : List QuestionnaireQuestion
  pub stages : List Stage
  pub industry_domain : Option IndustryDomainKey
  pub industry_domain_label : Option JsText
  pub industry_hint : Option JsText

unfoldable pub build_questionnaire_catalog_payload : Option IndustryDomainKey → CatalogPayload
build_questionnaire_catalog_payload domain =
    let questions = get_questions_for_domain domain in
    record {
      questions = questions;
      stages = list_questionnaire_stages questions;
      industry_domain = domain;
      industry_domain_label = elim domain as (λ _. Option JsText) [
        | none ↦ none
        | some d ↦ some (industry_domain_labels d)
      ];
      industry_hint = elim domain as (λ _. Option JsText) [
        | none ↦ some (
            literal
              "Set your organisation industry in Settings to unlock sector-specific questions.")
        | some d ↦ none
      ];
    }
