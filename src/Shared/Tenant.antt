-- ===== src/Shared/Tenant.antt =====
-- src/shared/repository/base.repository.ts: every query is held to one organization.
use dpdpos_backend.Prelude.{
  ℕ, String, Bool, true, ◌&&◌, Option, str_eq, literal, trim, is_nonempty, is_some, not,
  if◌then◌else◌,
}
use dpdpos_backend.Shared.Errors.{Result, ok, err, unexpected, ◌>>=◌}

unfoldable pub require_organization_id : String → Result String
unfolding literal trim
require_organization_id org = if is_nonempty (trim (literal org)) then ok org else err unexpected

-- The condition on the organization and the deletion date of a row.
abbrev pub in_tenant : String → Bool → String → Option ℕ → Bool
in_tenant org include_deleted row_org deleted_at =
    str_eq row_org org && (if include_deleted then true else not (is_some deleted_at))

unfoldable pub tenant_where : String → Bool → Result (String → Option ℕ → Bool)
tenant_where org include_deleted =
    require_organization_id org >>= λ o. ok (in_tenant o include_deleted)
