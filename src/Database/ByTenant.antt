-- ===== src/Database/ByTenant.antt =====
-- The query by identifier that the repositories share: `findFirst` held to one organization and to
-- rows that are not deleted.
use dpdpos_backend.Prelude.{
  String, ◌≡◌, inl, inr, Bool, true, false, ◌&&◌, Option, some, str_eq, eq_iff, arith, Option-cases,
  subst,
}
use dpdpos_backend.Shared.Errors.{Result, ok, ◌>>=◌}
use dpdpos_backend.Shared.Tenant.{tenant_where, require_organization_id, in_tenant}
use dpdpos_backend.Database.Table.{Table}
use dpdpos_backend.Database.Versioned.{Columns, is_kept}

module _ {R : Type 0} {key : R → String} {clash : R → R → Bool} (table : Table R key clash)
    (c : Columns R) where
  -- `findFirst` by identifier under the tenant's condition.
  unfoldable pub find_in_tenant : String → Bool → String → table.Content → Result (Option R)
  unfolding tenant_where
  find_in_tenant org include_deleted id t = tenant_where org include_deleted >>= λ tenant.
      ok (
        table.find_first (λ r. str_eq (key r) id && tenant (c.organization_id r) (c.deleted_at r))
          t)

  module _ (org id : String) (t : table.Content) where
    in_where : R → Bool
    in_where r = str_eq (key r) id && in_tenant org false (c.organization_id r) (c.deleted_at r)

    in_where_lem :
        (r : R)
        → in_where r ≡ true
        → (key r ≡ id) × (c.organization_id r ≡ org) × (is_kept (c.deleted_at r) ≡ true)
    unfolding in_where
    in_where_lem r h = ground (arith, eq_iff (key r) id, eq_iff (c.organization_id r) org)

    in_where-true :
        (r : R)
        → key r ≡ id
        → c.organization_id r ≡ org
        → is_kept (c.deleted_at r) ≡ true
        → in_where r ≡ true
    unfolding in_where
    in_where-true r e f h = ground (arith, eq_iff (key r) id, eq_iff (c.organization_id r) org)

    found_first :
        (r : R)
        → table.find_first in_where t ≡ some r
        → (table.row t id ≡ some r)
          × (c.organization_id r ≡ org)
          × (is_kept (c.deleted_at r) ≡ true)
    found_first r h =
        let facts = table.find_first_some in_where t r h in
        let (same, tenant, kept) = in_where_lem r facts.1 in
        (subst (λ k. table.row t k ≡ some r) same facts.0, tenant, kept)

    -- What is found has the identifier, belongs to the tenant and is not deleted.
    pub find_in_tenant-some :
        (r : R)
        → find_in_tenant org false id t ≡ ok (some r)
        → (table.row t id ≡ some r)
          × (c.organization_id r ≡ org)
          × (is_kept (c.deleted_at r) ≡ true)
    unfolding find_in_tenant require_organization_id in_where
    find_in_tenant-some r h = found_first r (ground arith)

    -- A live row of the tenant is found.
    pub find_in_tenant_row :
        (r : R)
        → require_organization_id org ≡ ok org
        → table.row t id ≡ some r
        → c.organization_id r ≡ org
        → is_kept (c.deleted_at r) ≡ true
        → find_in_tenant org false id t ≡ ok (some r)
    unfolding find_in_tenant in_where
    find_in_tenant_row r valid there same kept =
        let hit = in_where-true r (table.key-row t id r there) same kept in
        elim (Option-cases (table.find_first in_where t)) [
          | inl nothing ↦ cc (table.find_first_none in_where t nothing id r there)
          | inr (s, found) ↦ rw valid (cc (found, (found_first s found).0, there))
        ]
