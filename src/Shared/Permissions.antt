-- ===== src/Shared/Permissions.antt =====
-- src/shared/constants/permissions.ts: the catalog of permissions and the roles of a new organization.
use dpdpos_backend.Prelude.{String, Option, none, some, List, [], ◌∷◌, str_eq, if◌then◌else◌}

unfoldable pub all_permissions : List String
all_permissions =
    "organization:create" ∷ "organization:read" ∷ "organization:update" ∷ "user:create"
    ∷ "user:read" ∷ "user:update" ∷ "user:invite" ∷ "role:create" ∷ "role:read"
    ∷ "role:update_permissions" ∷ "role:assign" ∷ "department:create" ∷ "department:read"
    ∷ "department:update" ∷ "framework:generate" ∷ "framework:read" ∷ "framework:publish"
    ∷ "control:create" ∷ "control:read" ∷ "control:update" ∷ "requirement:create"
    ∷ "requirement:read" ∷ "data_asset:create" ∷ "data_asset:read" ∷ "data_asset:update"
    ∷ "data_asset:delete" ∷ "processing_activity:create" ∷ "processing_activity:read"
    ∷ "processing_activity:update" ∷ "processing_activity:delete" ∷ "notice:create" ∷ "notice:read"
    ∷ "notice:delete" ∷ "consent:create" ∷ "consent:read" ∷ "consent:withdraw"
    ∷ "rights_request:create" ∷ "rights_request:read" ∷ "rights_request:update" ∷ "validation:run"
    ∷ "validation:read" ∷ "violation:create" ∷ "violation:read" ∷ "violation:assign"
    ∷ "violation:close" ∷ "remediation:read" ∷ "remediation:update" ∷ "evidence:create"
    ∷ "evidence:read" ∷ "evidence:approve" ∷ "evidence:export" ∷ "report:generate" ∷ "report:read"
    ∷ "analytics:read" ∷ "notification:read" ∷ "notification:update_preferences" ∷ "ai:explain"
    ∷ "ai:draft" ∷ "audit:read" ∷ "audit:export" ∷ "assessment:create" ∷ "assessment:read"
    ∷ "assessment:update" ∷ "assessment:evaluate" ∷ "assessment:cli_token" ∷ "identity:read"
    ∷ "identity:update" ∷ "identity:sync" ∷ "vendor:read" ∷ "vendor:create" ∷ "vendor:update"
    ∷ "vendor:review" ∷ "vendor:offboard" ∷ []

unfoldable pub dpo_permissions : List String
dpo_permissions =
    "organization:read" ∷ "user:read" ∷ "user:invite" ∷ "role:read" ∷ "department:read"
    ∷ "framework:generate" ∷ "framework:read" ∷ "framework:publish" ∷ "control:create"
    ∷ "control:read" ∷ "control:update" ∷ "requirement:create" ∷ "requirement:read"
    ∷ "data_asset:read" ∷ "processing_activity:read" ∷ "notice:create" ∷ "notice:read"
    ∷ "notice:delete" ∷ "consent:create" ∷ "consent:read" ∷ "consent:withdraw"
    ∷ "rights_request:create" ∷ "rights_request:read" ∷ "rights_request:update" ∷ "validation:run"
    ∷ "validation:read" ∷ "violation:create" ∷ "violation:read" ∷ "violation:assign"
    ∷ "violation:close" ∷ "remediation:read" ∷ "remediation:update" ∷ "evidence:create"
    ∷ "evidence:read" ∷ "evidence:approve" ∷ "evidence:export" ∷ "report:generate" ∷ "report:read"
    ∷ "analytics:read" ∷ "notification:read" ∷ "ai:explain" ∷ "ai:draft" ∷ "audit:read"
    ∷ "audit:export" ∷ "assessment:create" ∷ "assessment:read" ∷ "assessment:update"
    ∷ "assessment:evaluate" ∷ "assessment:cli_token" ∷ "identity:read" ∷ "identity:update"
    ∷ "identity:sync" ∷ "vendor:read" ∷ "vendor:create" ∷ "vendor:update" ∷ "vendor:review"
    ∷ "vendor:offboard" ∷ []

unfoldable pub compliance_officer_permissions : List String
compliance_officer_permissions =
    "organization:read" ∷ "user:read" ∷ "department:read" ∷ "framework:read" ∷ "control:read"
    ∷ "requirement:read" ∷ "data_asset:create" ∷ "data_asset:read" ∷ "processing_activity:create"
    ∷ "processing_activity:read" ∷ "notice:create" ∷ "notice:read" ∷ "notice:delete"
    ∷ "consent:create" ∷ "consent:read" ∷ "consent:withdraw" ∷ "rights_request:create"
    ∷ "rights_request:read" ∷ "rights_request:update" ∷ "validation:run" ∷ "validation:read"
    ∷ "violation:create" ∷ "violation:read" ∷ "violation:assign" ∷ "remediation:read"
    ∷ "remediation:update" ∷ "evidence:create" ∷ "evidence:read" ∷ "report:read" ∷ "analytics:read"
    ∷ "notification:read" ∷ "ai:explain" ∷ "assessment:create" ∷ "assessment:read"
    ∷ "assessment:update" ∷ "assessment:evaluate" ∷ "assessment:cli_token" ∷ "vendor:read"
    ∷ "vendor:create" ∷ "vendor:update" ∷ "vendor:review" ∷ []

unfoldable pub auditor_permissions : List String
auditor_permissions =
    "organization:read" ∷ "user:read" ∷ "role:read" ∷ "department:read" ∷ "framework:read"
    ∷ "control:read" ∷ "requirement:read" ∷ "data_asset:read" ∷ "processing_activity:read"
    ∷ "notice:read" ∷ "consent:read" ∷ "rights_request:read" ∷ "validation:read" ∷ "violation:read"
    ∷ "remediation:read" ∷ "evidence:read" ∷ "report:read" ∷ "analytics:read" ∷ "audit:read"
    ∷ "audit:export" ∷ "assessment:read" ∷ "identity:read" ∷ "vendor:read" ∷ []

unfoldable pub member_permissions : List String
member_permissions =
    "organization:read" ∷ "department:read" ∷ "framework:read" ∷ "control:read" ∷ "data_asset:read"
    ∷ "notification:read" ∷ "notification:update_preferences" ∷ []

unfoldable pub system_role_presets : String → Option (List String)
system_role_presets name =
    if str_eq name "ORG_ADMIN"
    then some all_permissions
    else if str_eq name "DPO"
    then some dpo_permissions
    else if str_eq name "COMPLIANCE_OFFICER"
    then some compliance_officer_permissions
    else if str_eq name "AUDITOR"
    then some auditor_permissions
    else if str_eq name "MEMBER"
    then some member_permissions
    else none
