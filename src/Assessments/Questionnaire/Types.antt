-- ===== src/Assessments/Questionnaire/Types.antt =====
-- src/modules/assessments/domain/questionnaire-types.ts and industry-domains.ts: questions, and the
-- industries with questions of their own.
use dpdpos_backend.Prelude.{ℕ, String, JsText, literal, Bool, Option, List, [], ◌∷◌}
use dpdpos_backend.Assessments.Engine.{AnswerValue}

pub data IndustryDomainKey : Type 0 where
  banking_finance healthcare ecommerce_retail education_edtech it_saas telecom automobile
        food_manufacturing hotels space_technology :
      IndustryDomainKey

unfoldable pub industry_domain_keys : List IndustryDomainKey
industry_domain_keys =
    banking_finance ∷ healthcare ∷ ecommerce_retail ∷ education_edtech ∷ it_saas ∷ telecom
    ∷ automobile ∷ food_manufacturing ∷ hotels ∷ space_technology ∷ []

unfoldable pub industry_domain_labels : IndustryDomainKey → JsText
industry_domain_labels banking_finance = literal "Banking, NBFC & Fintech"
industry_domain_labels healthcare = literal "Healthcare & Health-tech"
industry_domain_labels ecommerce_retail = literal "E-commerce & Retail"
industry_domain_labels education_edtech = literal "Education & EdTech"
industry_domain_labels it_saas = literal "IT, SaaS & B2B Tech"
industry_domain_labels telecom = literal "Telecom & Digital Communications"
industry_domain_labels automobile = literal "Automobile & Automotive"
industry_domain_labels food_manufacturing = literal "Food Manufacturing & Processing"
industry_domain_labels hotels = literal "Hotels & Hospitality"
industry_domain_labels space_technology = literal "Space Technology & Aerospace"

pub data ValueType : Type 0 where
  boolean_value string_value : ValueType

pub record ShowIf : Type 0 where
  pub code : String
  pub equals : AnswerValue

pub record QuestionnaireQuestion : Type 0 where
  pub code : String
  pub stage_id : String
  pub stage_label : JsText
  pub stage_order : ℕ
  pub label : JsText
  pub help_text : JsText
  pub value_type : ValueType
  pub options : Option (List String)
  pub required : Option Bool
  pub show_if : Option ShowIf
  pub industry_domain : Option IndustryDomainKey
