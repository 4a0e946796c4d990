-- ===== src/Shared/Guards.antt =====
-- src/shared/guards/permission.guard.ts and src/modules/roles/domain/permission-catalog.ts.
use dpdpos_backend.Prelude.{
  String, literal, not, Option, none, some, List, [], ◌∷◌, ◌++◌, map, filter, ltb, length,
  includes_string, join, if◌then◌else◌,
}
use dpdpos_backend.Shared.Errors.{Result, ok, err, app, forbidden_request, validation_failed}
use dpdpos_backend.Shared.Context.{RequestContext}
use dpdpos_backend.Shared.Permissions.{all_permissions}

abbrev pub permissions_of : Option RequestContext → List String
permissions_of none = []
permissions_of (some ctx) = ctx.permissions

-- The error that `next` is given, or the next handler.
unfoldable pub require_permission : List String → Option RequestContext → Result (Unit {0})
require_permission required context =
    let missing = filter (λ p. not (includes_string (permissions_of context) p)) required in
    if ltb 0 (length missing)
    then err (
        app (
          forbidden_request (
            literal "Missing required permission(s): "
            ++ join (literal ", ") (map literal missing))))
    else ok tt

-- `[...new Set(permissions)]`: each text where it comes first.
unfoldable pub distinct_from : List String → List String → List String
distinct_from seen [] = []
distinct_from seen (p ∷ ps) =
    let skipped = distinct_from seen ps in
    let taken = distinct_from (p ∷ seen) ps in if includes_string seen p then skipped else p ∷ taken

unfoldable pub assert_permissions_in_catalog : List String → Result (List String)
assert_permissions_in_catalog permissions =
    let missing = filter (λ p. not (includes_string all_permissions p)) permissions in
    if ltb 0 (length missing)
    then err (app (validation_failed (literal "One or more permissions are not in the catalog")))
    else ok (distinct_from [] permissions)
