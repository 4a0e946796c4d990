-- ===== src/Shared/Presets.antt =====
-- The roles of a new organization, src/shared/constants/permissions.ts, before the check of role permissions.
use dpdpos_backend.Prelude.{String, ◌≡◌, refl, some, List, arith}
use dpdpos_backend.Shared.Errors.{ok}
use dpdpos_backend.Shared.Permissions.{
  all_permissions, dpo_permissions, compliance_officer_permissions, auditor_permissions,
  member_permissions, system_role_presets,
}
use dpdpos_backend.Shared.Guards.{assert_permissions_in_catalog, distinct_from}

abbrev IsAccepted : List String → Type 0
IsAccepted ps = assert_permissions_in_catalog ps ≡ ok ps

admin-IsAccepted : IsAccepted all_permissions
unfolding assert_permissions_in_catalog all_permissions distinct_from
admin-IsAccepted = refl

dpo-IsAccepted : IsAccepted dpo_permissions
unfolding assert_permissions_in_catalog all_permissions distinct_from dpo_permissions
dpo-IsAccepted = refl

compliance_officer-IsAccepted : IsAccepted compliance_officer_permissions
unfolding assert_permissions_in_catalog all_permissions distinct_from compliance_officer_permissions
compliance_officer-IsAccepted = refl

auditor-IsAccepted : IsAccepted auditor_permissions
unfolding assert_permissions_in_catalog all_permissions distinct_from auditor_permissions
auditor-IsAccepted = refl

member-IsAccepted : IsAccepted member_permissions
unfolding assert_permissions_in_catalog all_permissions distinct_from member_permissions
member-IsAccepted = refl

-- The permissions of every system role pass the check of the catalog and are left as they are.
pub presets_accepted :
    (name : String) (ps : List String)
    → system_role_presets name ≡ some ps
    → assert_permissions_in_catalog ps ≡ ok ps
unfolding system_role_presets
presets_accepted name ps h = ground (
  arith, admin-IsAccepted, dpo-IsAccepted, compliance_officer-IsAccepted, auditor-IsAccepted,
  member-IsAccepted,
)
