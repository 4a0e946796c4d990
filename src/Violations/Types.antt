-- ===== src/Violations/Types.antt =====
-- src/modules/violations/types and dto: records, requests and responses of violations.
use mathlib.Core.Option
use dpdpos_backend.Prelude.{
  ℕ, String, JsText, IsoDate, iso, Bool, false, ◌&&◌, ◌||◌, Option, none, some, Patch, str_eq,
  text_eq, if◌then◌else◌,
}
use dpdpos_backend.Violations.Lifecycle.{ViolationStatus, status_text}

pub data RuleSeverity : Type 0 where
  low medium high critical : RuleSeverity

unfoldable pub severity_text : RuleSeverity → String
severity_text low = "LOW"
severity_text medium = "MEDIUM"
severity_text high = "HIGH"
severity_text critical = "CRITICAL"

pub record Violation : Type 0 where
  pub id : String
  pub organization_id : String
  pub validation_result_id : Option String
  pub source_key : Option JsText
  pub severity : RuleSeverity
  pub title : JsText
  pub description : Option JsText
  pub status : ViolationStatus
  pub assigned_to : Option String
  pub opened_at : ℕ
  pub due_at : Option ℕ
  pub closed_at : Option ℕ
  pub resolution_summary : Option JsText
  pub evidence_required_flag : Bool
  pub version : ℕ
  pub created_by : Option String
  pub updated_by : Option String
  pub created_at : ℕ
  pub updated_at : ℕ
  pub deleted_at : Option ℕ

abbrev pub violation_key : Violation → String
violation_key v = v.id

-- Two values of a nullable column under a unique index: nulls do not clash.
abbrev pub same_some : {A : Type 0} → (A → A → Bool) → Option A → Option A → Bool
same_some eq none o = false
same_some eq (some a) none = false
same_some eq (some a) (some b) = eq a b

-- The unique indexes on (organization_id, validation_result_id) and (organization_id, source_key).
abbrev pub violation_clash : Violation → Violation → Bool
violation_clash v w =
    str_eq v.organization_id w.organization_id
    && (same_some str_eq v.validation_result_id w.validation_result_id
        || same_some text_eq v.source_key w.source_key)

pub record ViolationResponse : Type 0 where
  pub id : String
  pub validation_result_id : Option String
  pub severity : String
  pub title : JsText
  pub description : Option JsText
  pub status : String
  pub assigned_to : Option String
  pub opened_at : IsoDate
  pub due_at : Option IsoDate
  pub closed_at : Option IsoDate
  pub resolution_summary : Option JsText
  pub evidence_required_flag : Bool
  pub version : ℕ
  pub created_at : IsoDate
  pub updated_at : IsoDate

unfoldable pub to_violation_response : Violation → ViolationResponse
unfolding severity_text status_text
to_violation_response violation = record {
  id = violation.id;
  validation_result_id = violation.validation_result_id;
  severity = severity_text violation.severity;
  title = violation.title;
  description = violation.description;
  status = status_text violation.status;
  assigned_to = violation.assigned_to;
  opened_at = iso violation.opened_at;
  due_at = Option.map iso violation.due_at;
  closed_at = Option.map iso violation.closed_at;
  resolution_summary = violation.resolution_summary;
  evidence_required_flag = violation.evidence_required_flag;
  version = violation.version;
  created_at = iso violation.created_at;
  updated_at = iso violation.updated_at;
}

-- Request bodies, as the schemas of the routes let them through.
pub record CreateViolationDto : Type 0 where
  pub validation_result_id : Option String
  pub severity : RuleSeverity
  pub title : JsText
  pub description : Option JsText
  pub assigned_to : Option String
  pub due_at : Option IsoDate

pub record UpdateViolationDto : Type 0 where
  pub version : ℕ
  pub title : Option JsText
  pub description : Patch JsText
  pub severity : Option RuleSeverity
  pub status : Option ViolationStatus
  pub assigned_to : Patch String
  pub due_at : Patch IsoDate
  pub resolution_summary : Patch JsText

pub record CloseViolationBody : Type 0 where
  pub version : ℕ
  pub resolution_summary : JsText

pub record ListViolationsQuery : Type 0 where
  pub status : Option ViolationStatus
  pub severity : Option RuleSeverity
  pub assigned_to : Option String

-- The payload of a ValidationFailed event; its severity is the text that crossed the event bus.
pub record ValidationFailedPayload : Type 0 where
  pub rule_code : JsText
  pub rule_id : String
  pub result_id : Option String
  pub severity : String
  pub evidence_required_flag : Option Bool
  pub explanation : Option JsText

-- What the assessment module hands over for a control that failed.
pub record AssessmentControlFail : Type 0 where
  pub assessment_id : JsText
  pub assessment_name : JsText
  pub version_number : ℕ
  pub control_code : JsText
  pub severity : String
  pub reasoning : JsText

-- `VIOLATION_SEVERITIES.includes(text)`, with the severity that the text names.
unfoldable pub parse_severity : String → Option RuleSeverity
parse_severity s =
    if str_eq s "LOW"
    then some low
    else if str_eq s "MEDIUM"
    then some medium
    else if str_eq s "HIGH"
    then some high
    else if str_eq s "CRITICAL"
    then some critical
    else none
