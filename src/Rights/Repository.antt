-- ===== src/Rights/Repository.antt =====
-- src/modules/rights/repositories/data-subject-request.repository.ts: queries and writes of requests.
use dpdpos_backend.Prelude.{
  ℕ, ◌+◌, String, JsText, Bool, true, false, ◌&&◌, Option, none, some, List, Patch, patch,
  patch_nullable, patch_some, str_eq,
}
use dpdpos_backend.Shared.Errors.{Result, ok, ◌>>=◌}
use dpdpos_backend.Shared.Context.{RequestContext, Call}
use dpdpos_backend.Shared.Tenant.{tenant_where}
use dpdpos_backend.Database.Versioned.{Columns, optimistic_update}
use dpdpos_backend.Database.ByTenant.{find_in_tenant}
use dpdpos_backend.Database.Prisma.{Prisma, Db}
use dpdpos_backend.Rights.Lifecycle.{
  DataSubjectRequestStatus, submitted, same_status, DataSubjectRequestType, access, correction,
  completion, updating, erasure, grievance_redressal, nomination,
}
use dpdpos_backend.Rights.Types.{DataSubjectRequest}

pub record CreateDataSubjectRequestData : Type 0 where
  pub request_type : DataSubjectRequestType
  pub requester_reference : JsText
  pub assigned_to : Option String
  pub due_at : Option ℕ

pub record UpdateDataSubjectRequestData : Type 0 where
  pub assigned_to : Patch String
  pub status : Option DataSubjectRequestStatus
  pub resolution_summary : Patch JsText
  pub closed_at : Option ℕ

pub record ListDataSubjectRequestsOptions : Type 0 where
  pub request_type : Option DataSubjectRequestType
  pub status : Option DataSubjectRequestStatus
  pub assigned_to : Option String
  pub include_deleted : Option Bool

-- An optional flag as a condition.
abbrev is_set : Option Bool → Bool
is_set none = false
is_set (some flag) = flag

-- The row that `create` inserts, with the defaults of the schema.
unfoldable pub new_request :
    Call → RequestContext → CreateDataSubjectRequestData → DataSubjectRequest
new_request call ctx input = record {
  id = call.new_id;
  organization_id = ctx.organization_id;
  request_type = input.request_type;
  requester_reference = input.requester_reference;
  status = submitted;
  assigned_to = input.assigned_to;
  opened_at = call.now;
  due_at = input.due_at;
  closed_at = none;
  cooling_off_until = none;
  immediate_erase = false;
  soft_deleted_at = none;
  hard_deleted_at = none;
  erasure_evidence = none;
  resolution_summary = none;
  version = 1;
  created_by = some ctx.actor_user_id;
  updated_by = some ctx.actor_user_id;
  created_at = call.now;
  updated_at = call.now;
  deleted_at = none;
}

-- The `data` of `updateMany`.
unfoldable pub write_request :
    Call → RequestContext → UpdateDataSubjectRequestData → DataSubjectRequest → DataSubjectRequest
write_request call ctx d row = record row {
  assigned_to = patch_nullable d.assigned_to row.assigned_to;
  status = patch d.status row.status;
  resolution_summary = patch_nullable d.resolution_summary row.resolution_summary;
  closed_at = patch_some d.closed_at row.closed_at;
  version = row.version + 1;
  updated_by = some ctx.actor_user_id;
  updated_at = call.now;
}

abbrev pub request_columns : Columns DataSubjectRequest
request_columns = record {
  organization_id = λ r. r.organization_id;
  version = λ r. r.version;
  deleted_at = λ r. r.deleted_at;
}

-- `===` on request types.
abbrev pub same_type : DataSubjectRequestType → DataSubjectRequestType → Bool
same_type access access = true
same_type correction correction = true
same_type completion completion = true
same_type updating updating = true
same_type erasure erasure = true
same_type grievance_redressal grievance_redressal = true
same_type nomination nomination = true
same_type _ _ = false

-- `...(options.column ? { column: options.column } : {})`.
abbrev matches_column : {A : Type 0} → (A → A → Bool) → Option A → Option A → Bool
matches_column eq none o = true
matches_column eq (some a) none = false
matches_column eq (some a) (some b) = eq b a

module _ (p : Prisma) where
  open p use {data_subject_request}

  unfoldable pub find_by_id : String → String → Db p → Result (Option DataSubjectRequest)
  find_by_id org id db =
      find_in_tenant data_subject_request request_columns org false id db.requests

  unfoldable pub list_requests :
      String → ListDataSubjectRequestsOptions → Db p → Result (List DataSubjectRequest)
  list_requests org options db = do
    tenant ← tenant_where org (is_set options.include_deleted)
    ok (
        data_subject_request.find_many
          (λ r.
            tenant r.organization_id r.deleted_at
            && matches_column same_type options.request_type (some r.request_type)
            && matches_column same_status options.status (some r.status)
            && matches_column str_eq options.assigned_to r.assigned_to)
          (λ r. r.opened_at) db.requests)

  -- `none` is a violated unique index.
  unfoldable pub create :
      Call
      → RequestContext
      → CreateDataSubjectRequestData
      → Db p
      → Option (DataSubjectRequest × Db p)
  create call ctx input db =
      let row = new_request call ctx input in
      elim (data_subject_request.create row db.requests) [
        | none ↦ none
        | some requests ↦ some (row, record db { requests = requests })
      ]

  -- The row as it stands after the write, or null when the expected version is stale.
  unfoldable pub update :
      Call
      → RequestContext
      → String
      → ℕ
      → UpdateDataSubjectRequestData
      → Db p
      → Option DataSubjectRequest × Db p
  update call ctx id expected input db =
      let (found, requests) =
        optimistic_update data_subject_request request_columns ctx.organization_id id expected
          (write_request call ctx input) db.requests in
      (found, record db { requests = requests })
