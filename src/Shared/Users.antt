-- ===== src/Shared/Users.antt =====
-- The lookups of users by the services of violations, remediation tasks and rights requests: the
-- adapter `PrismaUserLookup` and the check `assertAssigneeInOrganization`, which are the same in
-- src/modules/violations, src/modules/remediation and src/modules/rights.
use dpdpos_backend.Prelude.{
  String, literal, truthy, Bool, ◌&&◌, Option, none, some, is_some, str_eq, if◌then◌else◌,
}
use dpdpos_backend.Shared.Errors.{Result, ok, err, app, missing_resource}
use dpdpos_backend.Shared.Context.{RequestContext}
use dpdpos_backend.Database.Versioned.{is_kept}
use dpdpos_backend.Database.Prisma.{Prisma, Db}

module _ (p : Prisma) where
  open p use {user}

  unfoldable pub user_exists_in_organization : String → String → Db p → Bool
  user_exists_in_organization org user_id db = is_some (
      user.find_first
        (λ u. str_eq u.id user_id && str_eq u.organization_id org && is_kept u.deleted_at) db.users)

  unfoldable pub assert_assignee_in_organization :
      RequestContext → Option String → Db p → Result (Unit {0})
  unfolding truthy
  assert_assignee_in_organization ctx assigned_to db = elim (truthy assigned_to) [
    | none ↦ ok tt
    | some u ↦
        if user_exists_in_organization ctx.organization_id u db
        then ok tt
        else err (app (missing_resource (literal "Assigned user not found")))
  ]
