-- ===== src/Assessments/Questionnaire/Required.antt =====
-- What the check of required answers in src/modules/assessments/services/assessment.service.ts lets through.
use dpdpos_backend.Prelude.{
  ℕ, ◌<◌, String, ◌≡◌, refl, ap, inl, inr, Bool, true, false, not, ◌&&◌, Option, none, some, List,
  [], ◌∷◌, Memᴰ, map, filter, ltb, str_eq, eq_iff, length, includes_string, none_left, arith,
  Bool-cases,
}
use dpdpos_backend.Shared.Errors.{ok}
use dpdpos_backend.Assessments.Engine.{AnswerLite}
use dpdpos_backend.Assessments.Questionnaire.Types.{
  IndustryDomainKey, banking_finance, healthcare, ecommerce_retail, education_edtech, it_saas,
  telecom, automobile, food_manufacturing, hotels, space_technology, QuestionnaireQuestion,
}
use dpdpos_backend.Assessments.Questionnaire.Catalog.{
  get_questions_for_domain, core_questionnaire, industry_packs,
}
use dpdpos_backend.Assessments.Questionnaire.Answers.{
  find_question, is_required, is_shown, is_answered, is_missing, required_codes, missing_required,
  check_evaluable,
}
use dpdpos_backend.Assessments.Questionnaire.EngineeringAudit.{engineering_audit_questions}
use dpdpos_backend.Assessments.Questionnaire.OrgProfile.{org_profile_questions}
use dpdpos_backend.Assessments.Questionnaire.NoticeConsent.{notice_consent_questions}
use dpdpos_backend.Assessments.Questionnaire.Rights.{rights_questions}
use dpdpos_backend.Assessments.Questionnaire.Vendors.{vendors_questions}
use dpdpos_backend.Assessments.Questionnaire.RetentionBreach.{retention_breach_questions}
use dpdpos_backend.Assessments.Questionnaire.Governance.{governance_questions}
use dpdpos_backend.Assessments.Questionnaire.Automobile.{automobile_questions}
use dpdpos_backend.Assessments.Questionnaire.BankingFinance.{banking_finance_questions}
use dpdpos_backend.Assessments.Questionnaire.EcommerceRetail.{ecommerce_retail_questions}
use dpdpos_backend.Assessments.Questionnaire.EducationEdtech.{education_edtech_questions}
use dpdpos_backend.Assessments.Questionnaire.FoodManufacturing.{food_manufacturing_questions}
use dpdpos_backend.Assessments.Questionnaire.Healthcare.{healthcare_questions}
use dpdpos_backend.Assessments.Questionnaire.Hotels.{hotels_questions}
use dpdpos_backend.Assessments.Questionnaire.ItSaas.{it_saas_questions}
use dpdpos_backend.Assessments.Questionnaire.SpaceTechnology.{space_technology_questions}
use dpdpos_backend.Assessments.Questionnaire.Telecom.{telecom_questions}

abbrev codes_of : List QuestionnaireQuestion → List String
codes_of qs = map (λ (q : QuestionnaireQuestion). q.code) qs

abbrev distinct_codes : List QuestionnaireQuestion → Bool
distinct_codes [] = true
distinct_codes (q ∷ qs) = not (includes_string (codes_of qs) q.code) && distinct_codes qs

-- No catalogue has two questions under one code.
catalog-distinct :
    (domain : Option IndustryDomainKey) → distinct_codes (get_questions_for_domain domain) ≡ true
unfolding get_questions_for_domain core_questionnaire industry_packs engineering_audit_questions
    org_profile_questions notice_consent_questions rights_questions vendors_questions
    retention_breach_questions governance_questions automobile_questions banking_finance_questions
    ecommerce_retail_questions education_edtech_questions food_manufacturing_questions
    healthcare_questions hotels_questions it_saas_questions space_technology_questions
    telecom_questions
catalog-distinct none = refl
catalog-distinct (some banking_finance) = refl
catalog-distinct (some healthcare) = refl
catalog-distinct (some ecommerce_retail) = refl
catalog-distinct (some education_edtech) = refl
catalog-distinct (some it_saas) = refl
catalog-distinct (some telecom) = refl
catalog-distinct (some automobile) = refl
catalog-distinct (some food_manufacturing) = refl
catalog-distinct (some hotels) = refl
catalog-distinct (some space_technology) = refl

includes-code :
    (qs : List QuestionnaireQuestion) (q : QuestionnaireQuestion)
    → Memᴰ q qs
    → includes_string (codes_of qs) q.code ≡ true
includes-code [] q m = elim m [ ]
includes-code (x ∷ qs) q (Memᴰ.head e) =
    ground (arith, eq_iff x.code q.code, ap (λ (z : QuestionnaireQuestion). z.code) e)
includes-code (x ∷ qs) q (Memᴰ.tail m) = ground (arith, includes-code qs q m)

find-member :
    (qs : List QuestionnaireQuestion) (q : QuestionnaireQuestion)
    → distinct_codes qs ≡ true
    → Memᴰ q qs
    → find_question qs q.code ≡ some q
unfolding find_question
find-member [] q h m = elim m [ ]
find-member (x ∷ qs) q h (Memᴰ.head e) =
    ground (arith, eq_iff x.code q.code, ap (λ (z : QuestionnaireQuestion). z.code) e)
find-member (x ∷ qs) q h (Memᴰ.tail m) = elim (Bool-cases (str_eq x.code q.code)) [
  | inl same ↦
      let fresh : includes_string (codes_of qs) x.code ≡ false = ground arith in
      cc (
        includes-code qs q m,
        ap (includes_string (codes_of qs)) ((eq_iff x.code q.code).0 same),
        fresh,
      )
  | inr other ↦ rw other (find-member qs q (ground arith) m)
]

required-member :
    (qs : List QuestionnaireQuestion) (q : QuestionnaireQuestion)
    → Memᴰ q qs
    → is_required q.required ≡ true
    → Memᴰ q.code (codes_of (filter (λ (z : QuestionnaireQuestion). is_required z.required) qs))
required-member [] q m h = elim m [ ]
required-member (x ∷ qs) q (Memᴰ.head e) h = rw (← e, h) (Memᴰ.head refl)
required-member (x ∷ qs) q (Memᴰ.tail m) h = elim (Bool-cases (is_required x.required)) [
  | inl r ↦ rw r (Memᴰ.tail (required-member qs q m h))
  | inr r ↦ rw r (required-member qs q m h)
]

passes_guards :
    (ready : ℕ) (qs : List QuestionnaireQuestion) (answers : List AnswerLite)
    → check_evaluable ready qs answers ≡ ok tt
    → (0 < ready) × (ltb 0 (length (missing_required qs answers)) ≡ false)
unfolding check_evaluable
passes_guards ready qs answers h = ground arith

not_missing :
    (qs : List QuestionnaireQuestion) (answers : List AnswerLite) (q : QuestionnaireQuestion)
    → find_question qs q.code ≡ some q
    → is_missing qs answers q.code ≡ false
    → is_shown answers q.show_if ≡ true
    → is_answered answers q.code ≡ true
unfolding is_missing
not_missing qs answers q found h shown = ground (arith, found)

-- An evaluation that passes the check has a document that is ready, and in the catalogue of every
-- industry an answer to every required question that is shown for the answers given.
pub evaluable_is_answered :
    (ready : ℕ) (domain : Option IndustryDomainKey) (answers : List AnswerLite)
    (q : QuestionnaireQuestion)
    → check_evaluable ready (get_questions_for_domain domain) answers ≡ ok tt
    → Memᴰ q (get_questions_for_domain domain)
    → is_required q.required ≡ true
    → is_shown answers q.show_if ≡ true
    → (0 < ready) × (is_answered answers q.code ≡ true)
unfolding missing_required required_codes
evaluable_is_answered ready domain answers q h m r shown =
    let qs = get_questions_for_domain domain in
    let (some_ready, complete) = passes_guards ready qs answers h in
    (
      some_ready,
      not_missing qs answers q (find-member qs q (catalog-distinct domain) m)
          (none_left (is_missing qs answers) _ q.code complete (required-member qs q m r)) shown,
    )
