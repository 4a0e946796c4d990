-- ===== src/Rights/Types.antt =====
-- src/modules/rights/types and dto, and the rows of prisma/schema.prisma that the module keeps:
-- requests of data subjects, with the columns of the erasure workflow, and erasure checklists.
use mathlib.Core.Option
use dpdpos_backend.Prelude.{ℕ, String, JsText, IsoDate, iso, Bool, Option, List, Patch}
use dpdpos_backend.Rights.Lifecycle.{DataSubjectRequestStatus, DataSubjectRequestType, status_text}

pub data ChecklistStatus : Type 0 where
  pending in_progress done skipped failed : ChecklistStatus

pub record ErasureChecklistItem : Type 0 where
  pub id : String
  pub organization_id : String
  pub data_subject_request_id : String
  pub system_key : JsText
  pub system_label : JsText
  pub vendor_id : Option String
  pub status : ChecklistStatus
  pub notes : Option JsText
  pub confirmed_at : Option ℕ
  pub confirmed_by : Option String

-- One system of the evidence pack.
pub record ErasedSystem : Type 0 where
  pub system_key : JsText
  pub system_label : JsText
  pub vendor_id : Option String
  pub status : ChecklistStatus
  pub confirmed_at : Option IsoDate
  pub confirmed_by : Option String
  pub notes : Option JsText

pub record ErasureEvidence : Type 0 where
  pub request_id : String
  pub requester_reference : JsText
  pub soft_deleted_at : IsoDate
  pub hard_deleted_at : IsoDate
  pub cooling_off_until : Option IsoDate
  pub immediate_erase : Bool
  pub systems : List ErasedSystem

pub record DataSubjectRequest : Type 0 where
  pub id : String
  pub organization_id : String
  pub request_type : DataSubjectRequestType
  pub requester_reference : JsText
  pub status : DataSubjectRequestStatus
  pub assigned_to : Option String
  pub opened_at : ℕ
  pub due_at : Option ℕ
  pub closed_at : Option ℕ
  pub cooling_off_until : Option ℕ
  pub immediate_erase : Bool
  pub soft_deleted_at : Option ℕ
  pub hard_deleted_at : Option ℕ
  pub erasure_evidence : Option ErasureEvidence
  pub resolution_summary : Option JsText
  pub version : ℕ
  pub created_by : Option String
  pub updated_by : Option String
  pub created_at : ℕ
  pub updated_at : ℕ
  pub deleted_at : Option ℕ

abbrev pub request_key : DataSubjectRequest → String
request_key r = r.id

pub record DataSubjectRequestResponse : Type 0 where
  pub id : String
  pub request_type : DataSubjectRequestType
  pub requester_reference : JsText
  pub status : String
  pub assigned_to : Option String
  pub opened_at : IsoDate
  pub due_at : Option IsoDate
  pub closed_at : Option IsoDate
  pub resolution_summary : Option JsText
  pub version : ℕ
  pub created_at : IsoDate
  pub updated_at : IsoDate

unfoldable pub to_data_subject_request_response : DataSubjectRequest → DataSubjectRequestResponse
unfolding status_text
to_data_subject_request_response request = record {
  id = request.id;
  request_type = request.request_type;
  requester_reference = request.requester_reference;
  status = status_text request.status;
  assigned_to = request.assigned_to;
  opened_at = iso request.opened_at;
  due_at = Option.map iso request.due_at;
  closed_at = Option.map iso request.closed_at;
  resolution_summary = request.resolution_summary;
  version = request.version;
  created_at = iso request.created_at;
  updated_at = iso request.updated_at;
}

pub record CreateDataSubjectRequestDto : Type 0 where
  pub request_type : DataSubjectRequestType
  pub requester_reference : JsText
  pub assigned_to : Option String
  pub immediate_erase : Option Bool
  pub cooling_off_days : Option ℕ

pub record UpdateDataSubjectRequestDto : Type 0 where
  pub version : ℕ
  pub assigned_to : Patch String
  pub status : Option DataSubjectRequestStatus
  pub resolution_summary : Patch JsText
