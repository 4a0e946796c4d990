-- ===== src/Shared/Catalog.antt =====
-- What src/shared/guards/permission.guard.ts and src/modules/roles/domain/permission-catalog.ts let through.
use dpdpos_backend.Prelude.{
  String, ◌≡◌, refl, sym, ap, ◌∙◌, inl, inr, Bool, true, false, not, Option, List, [], ◌∷◌, Memᴰ,
  filter, ltb, length, str_eq, eq_iff, includes_string, none_left, arith, Bool-cases, subst,
}
use dpdpos_backend.Shared.Errors.{ok}
use dpdpos_backend.Shared.Context.{RequestContext}
use dpdpos_backend.Shared.Permissions.{all_permissions}
use dpdpos_backend.Shared.Guards.{
  permissions_of, require_permission, distinct_from, assert_permissions_in_catalog,
}

nothing_left :
    (f : String → Bool) (xs : List String)
    → ((x : String) → Memᴰ x xs → f x ≡ false)
    → ltb 0 (length (filter f xs)) ≡ false
nothing_left f [] h = refl
nothing_left f (x ∷ xs) h = rw (h x (Memᴰ.head refl)) (nothing_left f xs (λ y m. h y (Memᴰ.tail m)))

-- The guard lets a request through exactly when its context has every permission that is required.
pub require_permission_iff :
    (required : List String) (context : Option RequestContext)
    → (require_permission required context ≡ ok tt
        → (p : String) → Memᴰ p required
        → includes_string (permissions_of context) p ≡ true)
      × (((p : String) → Memᴰ p required → includes_string (permissions_of context) p ≡ true)
          → require_permission required context ≡ ok tt)
unfolding require_permission
require_permission_iff required context =
    let absent = λ (p : String). not (includes_string (permissions_of context) p) in
    (
      λ h p m.
          let l : ltb 0 (length (filter absent required)) ≡ false = ground arith in
          let k = none_left absent required p l m in ground arith,
      λ h. rw (nothing_left absent required (λ p m. ap not (h p m))) refl,
    )

distinct_from-seen :
    (seen ps : List String) (p : String)
    → includes_string seen p ≡ true
    → includes_string (distinct_from seen ps) p ≡ false
unfolding distinct_from
distinct_from-seen seen [] p h = refl
distinct_from-seen seen (q ∷ ps) p h = elim (Bool-cases (includes_string seen q)) [
  | inl old ↦ rw old (distinct_from-seen seen ps p h)
  | inr new ↦ elim (Bool-cases (str_eq q p)) [
    | inl same ↦ cc (h, new, ap (includes_string seen) ((eq_iff q p).0 same))
    | inr other ↦ rw (new, other) (distinct_from-seen (q ∷ seen) ps p (rw other h))
  ]
]

distinct_from-includes :
    (seen ps : List String) (p : String)
    → includes_string seen p ≡ false
    → includes_string (distinct_from seen ps) p ≡ includes_string ps p
unfolding distinct_from
distinct_from-includes seen [] p h = refl
distinct_from-includes seen (q ∷ ps) p h = elim (Bool-cases (str_eq q p)) [
  | inl same ↦ ground (arith, ap (includes_string seen) ((eq_iff q p).0 same))
  | inr other ↦ elim (Bool-cases (includes_string seen q)) [
    | inl old ↦ rw (old, other) (distinct_from-includes seen ps p h)
    | inr new ↦ rw (new, other) (distinct_from-includes (q ∷ seen) ps p (rw other h))
  ]
]

abbrev pub AllDistinct : List String → Type 0
AllDistinct [] = Unit
AllDistinct (p ∷ ps) = (includes_string ps p ≡ false) × AllDistinct ps

distinct_from-AllDistinct : (seen ps : List String) → AllDistinct (distinct_from seen ps)
unfolding distinct_from
distinct_from-AllDistinct seen [] = tt
distinct_from-AllDistinct seen (p ∷ ps) = elim (Bool-cases (includes_string seen p)) [
  | inl old ↦ rw old (distinct_from-AllDistinct seen ps)
  | inr new ↦ rw new (
    distinct_from-seen (p ∷ seen) ps p (ground (arith, eq_iff p p)),
    distinct_from-AllDistinct (p ∷ seen) ps,
  )
]

-- Permissions that are accepted for a role are in the catalog, and are those that were given, each once.
pub accepted_permissions :
    (given kept : List String)
    → assert_permissions_in_catalog given ≡ ok kept
    → AllDistinct kept
      × ((p : String) → includes_string kept p ≡ includes_string given p)
      × ((p : String) → Memᴰ p given → includes_string all_permissions p ≡ true)
unfolding assert_permissions_in_catalog
accepted_permissions given kept h =
    let absent = λ (p : String). not (includes_string all_permissions p) in
    let l : ltb 0 (length (filter absent given)) ≡ false = ground arith in
    let e : distinct_from [] given ≡ kept = ground arith in
    (
      subst AllDistinct e (distinct_from-AllDistinct [] given),
      λ p. ap (λ ks. includes_string ks p) (sym e) ∙ distinct_from-includes [] given p refl,
      λ p m. let k = none_left absent given p l m in ground arith,
    )
