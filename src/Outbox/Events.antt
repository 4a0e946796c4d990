-- ===== src/Outbox/Events.antt =====
-- src/events/types/base-event.interface.ts and the rows of src/events/outbox/outbox.repository.ts:
-- names of domain events, payloads, and the outbox table with the writer of events.
use dpdpos_backend.Prelude.{ℕ, String, JsText, IsoDate, Bool, false, Option, none, some, List, ◌∷◌}
use dpdpos_backend.Shared.Errors.{Result, ok, err, unexpected}
use dpdpos_backend.Shared.Context.{RequestContext, Call}
use dpdpos_backend.Database.Table.{Table}

pub data DomainEventName : Type 0 where
  organization_created organization_onboarded user_invited user_deactivated : DomainEventName
  role_assigned role_permissions_changed department_created framework_published : DomainEventName
  control_assigned control_updated requirement_mapped data_asset_created : DomainEventName
  retention_expiring_soon consent_recorded consent_withdrawn : DomainEventName
  processing_activity_created rights_request_submitted rights_request_closed : DomainEventName
  validation_completed validation_failed violation_created violation_closed : DomainEventName
  remediation_task_assigned remediation_completed evidence_uploaded : DomainEventName
  evidence_approved report_requested report_generated snapshot_computed : DomainEventName
  notification_sent notification_failed ai_summary_ready ai_draft_ready : DomainEventName
  user_logged_in password_reset_requested vendor_created vendor_risk_changed : DomainEventName
  dpa_expiring sub_processor_added erasure_soft_deleted erasure_completed : DomainEventName

-- The JSON values that payloads hold; a key whose value is `undefined` is left out.
pub data Json : Type 0 where
  string : String → Json
  free_text : JsText → Json
  date : IsoDate → Json
  number : ℕ → Json
  boolean : Bool → Json
  null : Json

abbrev pub Payload : Type 0
Payload = List (String × Json)

-- `key: value ?? undefined`.
unfoldable pub optional : String → Option Json → Payload → Payload
optional k none rest = rest
optional k (some v) rest = (k, v) ∷ rest

pub record OutboxEvent : Type 0 where
  pub id : String
  pub organization_id : String
  pub event_type : DomainEventName
  pub payload : Payload
  pub actor_user_id : Option String
  pub correlation_id : Option String
  pub created_at : ℕ
  pub published_at : Option ℕ
  pub attempts : ℕ
  pub locked_at : Option ℕ
  pub lock_token : Option String
  pub available_at : Option ℕ
  pub last_error : Option JsText

abbrev pub outbox_key : OutboxEvent → String
outbox_key e = e.id

-- The outbox table has no unique index besides its primary key.
abbrev pub outbox_clash : OutboxEvent → OutboxEvent → Bool
outbox_clash e f = false

abbrev pub OutboxTable : Type 1
OutboxTable = Table OutboxEvent outbox_key outbox_clash

pub record OutboxWriteInput : Type 0 where
  pub event_type : DomainEventName
  pub organization_id : String
  pub payload : Payload
  pub actor_user_id : Option String
  pub correlation_id : Option String

-- The row that `writeOutboxEvent` inserts, with the defaults of the schema.
unfoldable pub new_outbox_event : Call → OutboxWriteInput → OutboxEvent
new_outbox_event call input = record {
  id = call.event_id;
  organization_id = input.organization_id;
  event_type = input.event_type;
  payload = input.payload;
  actor_user_id = input.actor_user_id;
  correlation_id = input.correlation_id;
  created_at = call.now;
  published_at = none;
  attempts = 0;
  locked_at = none;
  lock_token = none;
  available_at = none;
  last_error = none;
}

-- The input that every service of the program builds from its request context.
unfoldable pub event_of : RequestContext → DomainEventName → Payload → OutboxWriteInput
event_of ctx name payload = record {
  event_type = name;
  organization_id = ctx.organization_id;
  payload = payload;
  actor_user_id = some ctx.actor_user_id;
  correlation_id = some ctx.correlation_id;
}

-- A failed insert throws.
abbrev pub or_throw : {A : Type 0} → Option A → Result A
or_throw none = err unexpected
or_throw (some a) = ok a

module _ (outbox : OutboxTable) where
  open outbox use {Content, create}

  unfoldable pub write_outbox_event : Call → OutboxWriteInput → Content → Result Content
  unfolding new_outbox_event
  write_outbox_event call input t = or_throw (create (new_outbox_event call input) t)
