-- ===== src/Remediation/Types.antt =====
-- src/modules/remediation/types and dto: records, requests and responses of remediation tasks.
use dpdpos_backend.Prelude.{
  ℕ, String, JsText, IsoDate, iso, Bool, true, false, ◌&&◌, Option, Patch, str_eq,
}
use dpdpos_backend.Remediation.Lifecycle.{RemediationTaskStatus, status_text}
use mathlib.Core.Option

pub data RemediationTaskSource : Type 0 where
  auto manual : RemediationTaskSource

unfoldable pub source_text : RemediationTaskSource → String
source_text auto = "AUTO"
source_text manual = "MANUAL"

abbrev pub is_auto : RemediationTaskSource → Bool
is_auto auto = true
is_auto manual = false

pub record RemediationTask : Type 0 where
  pub id : String
  pub organization_id : String
  pub violation_id : String
  pub source : RemediationTaskSource
  pub task_title : JsText
  pub task_description : Option JsText
  pub status : RemediationTaskStatus
  pub assigned_to : Option String
  pub due_at : Option ℕ
  pub verified_at : Option ℕ
  pub verified_by : Option String
  pub closed_at : Option ℕ
  pub verification_notes : Option JsText
  pub resolution_summary : Option JsText
  pub version : ℕ
  pub created_by : Option String
  pub updated_by : Option String
  pub created_at : ℕ
  pub updated_at : ℕ
  pub deleted_at : Option ℕ

abbrev pub task_key : RemediationTask → String
task_key t = t.id

-- The partial unique index on (organization_id, violation_id) WHERE source = 'AUTO'.
abbrev pub task_clash : RemediationTask → RemediationTask → Bool
task_clash s t =
    is_auto s.source
    && is_auto t.source
    && str_eq s.organization_id t.organization_id
    && str_eq s.violation_id t.violation_id

pub record RemediationTaskResponse : Type 0 where
  pub id : String
  pub violation_id : String
  pub source : String
  pub task_title : JsText
  pub task_description : Option JsText
  pub status : String
  pub assigned_to : Option String
  pub due_at : Option IsoDate
  pub verified_at : Option IsoDate
  pub verified_by : Option String
  pub closed_at : Option IsoDate
  pub verification_notes : Option JsText
  pub resolution_summary : Option JsText
  pub version : ℕ
  pub created_at : IsoDate
  pub updated_at : IsoDate

unfoldable pub to_remediation_task_response : RemediationTask → RemediationTaskResponse
unfolding source_text status_text
to_remediation_task_response task = record {
  id = task.id;
  violation_id = task.violation_id;
  source = source_text task.source;
  task_title = task.task_title;
  task_description = task.task_description;
  status = status_text task.status;
  assigned_to = task.assigned_to;
  due_at = Option.map iso task.due_at;
  verified_at = Option.map iso task.verified_at;
  verified_by = task.verified_by;
  closed_at = Option.map iso task.closed_at;
  verification_notes = task.verification_notes;
  resolution_summary = task.resolution_summary;
  version = task.version;
  created_at = iso task.created_at;
  updated_at = iso task.updated_at;
}

-- Request bodies, as the schemas of the routes let them through.
pub record CreateRemediationTaskDto : Type 0 where
  pub violation_id : String
  pub task_title : JsText
  pub task_description : Option JsText
  pub assigned_to : Option String
  pub due_at : Option IsoDate

pub record UpdateRemediationTaskDto : Type 0 where
  pub version : ℕ
  pub task_title : Option JsText
  pub task_description : Patch JsText
  pub status : Option RemediationTaskStatus
  pub assigned_to : Patch String
  pub due_at : Patch IsoDate
  pub verification_notes : Patch JsText
  pub resolution_summary : Patch JsText

pub record CloseRemediationTaskBody : Type 0 where
  pub version : ℕ
  pub resolution_summary : JsText

pub record ListRemediationTasksQuery : Type 0 where
  pub status : Option RemediationTaskStatus
  pub violation_id : Option String
  pub assigned_to : Option String

-- The payload of a ViolationCreated event, as this module reads it: a missing identifier is `none`,
-- and a title that is no text is `none`.
pub record ViolationCreatedPayload : Type 0 where
  pub violation_id : Option String
  pub title : Option JsText
