-- ===== src/Database/Versioned.antt =====
-- The optimistic-lock update that the repositories share: `updateMany` held to the expected
-- version, then a read of the row. Columns are named by a record.

use mathlib.Core.Option.{some-injective}
use dpdpos_backend.Prelude.{
  ℕ, ◌+◌, ◌⊎◌, String, ◌≡◌, refl, sym, ◌∙◌, inl, inr, Bool, true, false, ◌&&◌, Option, none, some,
  str_eq, eq_iff, ◌==◌, if◌then◌else◌, arith, Option-cases, Bool-cases, subst, ap,
}
use dpdpos_backend.Database.Table.{Table}

pub record Columns (R : Type 0) : Type 0 where
  pub organization_id : R → String
  pub version : R → ℕ
  pub deleted_at : R → Option ℕ

-- `deletedAt: null`.
abbrev pub is_kept : Option ℕ → Bool
is_kept none = true
is_kept (some _) = false

module _ {R : Type 0} {key : R → String} {clash : R → R → Bool} (table : Table R key clash)
    (c : Columns R) where
  unfoldable pub at_version : String → String → ℕ → R → Bool
  at_version org id expected r =
      str_eq (key r) id
      && str_eq (c.organization_id r) org
      && c.version r == expected
      && is_kept (c.deleted_at r)

  unfoldable pub is_live : String → String → R → Bool
  is_live org id r =
      str_eq (key r) id && str_eq (c.organization_id r) org && is_kept (c.deleted_at r)

  unfoldable pub optimistic_update :
      String → String → ℕ → (R → R) → table.Content → Option R × table.Content
  optimistic_update org id expected write t =
      let (count, t') = table.update_many (at_version org id expected) write t in
      (if count == 0 then none else table.find_first (is_live org id) t', t')

  -- What a write must leave alone.
  pub record IsVersionedWrite (write : R → R) : Type 0 where
    pub same_key : (r : R) → key (write r) ≡ key r
    pub same_organization : (r : R) → c.organization_id (write r) ≡ c.organization_id r
    pub same_deletion : (r : R) → c.deleted_at (write r) ≡ c.deleted_at r
    pub next_version : (r : R) → c.version (write r) ≡ c.version r + 1

  pub key-is_live : (org id : String) (r : R) → is_live org id r ≡ true → key r ≡ id
  unfolding is_live
  key-is_live org id r h = ground (arith, eq_iff (key r) id)

  pub key-at_version :
      (org id : String) (expected : ℕ) (r : R) → at_version org id expected r ≡ true → key r ≡ id
  unfolding at_version
  key-at_version org id expected r h = ground (arith, eq_iff (key r) id)

  is_live-write :
      (org id : String) (expected : ℕ) (write : R → R)
      → IsVersionedWrite write
      → (r : R) → at_version org id expected r ≡ true
      → is_live org id (write r) ≡ true
  unfolding is_live at_version
  is_live-write org id expected write ws r hit =
      rw (ws.same_key r, ws.same_organization r, ws.same_deletion r) (ground arith)

  module _ (org id : String) (expected : ℕ) (write : R → R) (ws : IsVersionedWrite write)
      (t : table.Content) where
    written : table.Content
    written = (table.update_many (at_version org id expected) write t).1

    -- A row that the write does not reach stays as it is.
    pub row-other :
        (k : String) (r : R)
        → table.row t k ≡ some r
        → at_version org id expected r ≡ false
        → table.row (optimistic_update org id expected write t).1 k ≡ some r
    unfolding optimistic_update
    row-other k r e miss =
        rw (table.row-update_many (at_version org id expected) write t ws.same_key k, e)
          (rw miss refl)

    pub row-reached :
        (k : String) (r : R)
        → table.row t k ≡ some r
        → at_version org id expected r ≡ true
        → table.row (optimistic_update org id expected write t).1 k ≡ some (write r)
    unfolding optimistic_update
    row-reached k r e hit =
        rw (table.row-update_many (at_version org id expected) write t ws.same_key k, e)
          (rw hit refl)

    pub row-none :
        (k : String)
        → table.row t k ≡ none
        → table.row (optimistic_update org id expected write t).1 k ≡ none
    unfolding optimistic_update
    row-none k e =
        rw (table.row-update_many (at_version org id expected) write t ws.same_key k, e) refl

    no_row :
        ((r : R) → table.row t id ≡ some r → at_version org id expected r ≡ false)
        → (k : String) (r : R) → table.row t k ≡ some r
        → at_version org id expected r ≡ false
    no_row miss k r e = elim (Bool-cases (at_version org id expected r)) [
      | inl hit ↦ miss r (
          subst (λ j. table.row t j ≡ some r)
            (sym (table.key-row t k r e) ∙ key-at_version org id expected r hit) e)
      | inr h ↦ h
    ]

    found_written :
        (r : R)
        → table.row t id ≡ some r
        → at_version org id expected r ≡ true
        → table.find_first (is_live org id) written ≡ some (write r)
    unfolding written
    found_written r e hit =
        let live = is_live-write org id expected write ws r hit in
        let there : table.row written id ≡ some (write r) =
          rw (table.row-update_many (at_version org id expected) write t ws.same_key id, e)
            (rw hit refl) in
        elim (Option-cases (table.find_first (is_live org id) written)) [
          | inl nothing ↦
              cc (table.find_first_none (is_live org id) written nothing id (write r) there)
          | inr (s, found) ↦
              let facts = table.find_first_some (is_live org id) written s found in
              cc (facts.0, there, key-is_live org id s facts.1)
        ]

    -- With the expected version in the row the write succeeds and gives the new row.
    pub update_found :
        (r : R)
        → table.row t id ≡ some r
        → at_version org id expected r ≡ true
        → (optimistic_update org id expected write t).0 ≡ some (write r)
    unfolding optimistic_update written
    update_found r e hit = ground (
      arith,
      found_written r e hit,
      λ (z : (table.update_many (at_version org id expected) write t).0 ≡ 0).
          table.count_zero (at_version org id expected) write t z id r e,
    )

    -- With any other row the write gives null.
    pub update_stale :
        ((r : R) → table.row t id ≡ some r → at_version org id expected r ≡ false)
        → (optimistic_update org id expected write t).0 ≡ none
    unfolding optimistic_update
    update_stale miss =
        rw (table.count_none (at_version org id expected) write t (no_row miss)) refl

    -- Where a row of the new table comes from.
    pub row_origin :
        (k : String) (r' : R)
        → table.row (optimistic_update org id expected write t).1 k ≡ some r'
        → (r : R) × (table.row t k ≡ some r)
          × ((r' ≡ r) ⊎ ((at_version org id expected r ≡ true) × (k ≡ id) × (r' ≡ write r)))
    row_origin k r' h = elim (Option-cases (table.row t k)) [
      | inl nothing ↦ cc (row-none k nothing, h)
      | inr (r, e) ↦ elim (Bool-cases (at_version org id expected r)) [
        | inl hit ↦ (
          r,
          e,
          inr (
            hit,
            sym (table.key-row t k r e) ∙ key-at_version org id expected r hit,
            some-injective _ _ (sym h ∙ row-reached k r e hit),
          ),
        )
        | inr miss ↦ (r, e, inl (some-injective _ _ (sym h ∙ row-other k r e miss)))
      ]
    ]

    -- A write that gives a row found the expected version in the table.
    pub update_some :
        (s : R)
        → (optimistic_update org id expected write t).0 ≡ some s
        → (r : R) × (table.row t id ≡ some r)
          × (at_version org id expected r ≡ true)
          × (s ≡ write r)
    update_some s h = elim (Option-cases (table.row t id)) [
      | inl nothing ↦ cc (update_stale (λ r e. cc (nothing, e)), h)
      | inr (r, e) ↦ elim (Bool-cases (at_version org id expected r)) [
        | inl hit ↦ (r, e, hit, some-injective _ _ (sym h ∙ update_found r e hit))
        | inr miss ↦ cc (
          update_stale (λ r' e'.
              subst (λ x. at_version org id expected x ≡ false) (some-injective _ _ (sym e ∙ e'))
                miss),
          h,
        )
      ]
    ]

  version-at_version :
      (org id : String) (expected : ℕ) (r : R)
      → at_version org id expected r ≡ true
      → c.version r ≡ expected
  unfolding at_version
  version-at_version org id expected r h = ground arith

  at_version-ne :
      (org id : String) (expected : ℕ) (r : R)
      → c.version r ≡ expected + 1
      → at_version org id expected r ≡ false
  unfolding at_version
  at_version-ne org id expected r h = ground arith

  -- After a write that succeeded, no write with the same expected version does.
  pub update_once :
      (org org' id : String) (expected : ℕ) (write write' : R → R)
      → IsVersionedWrite write
      → IsVersionedWrite write'
      → (t : table.Content) (s : R) → (optimistic_update org id expected write t).0 ≡ some s
      → (optimistic_update org' id expected write' (optimistic_update org id expected write t).1).0
        ≡ none
  update_once org org' id expected write write' ws ws' t s h =
      let (r, e, hit, same) = update_some org id expected write ws t s h in
      update_stale org' id expected write' ws' (optimistic_update org id expected write t).1
        λ r' e'. at_version-ne org' id expected r' (
          ap c.version
            (some-injective _ _ (sym e' ∙ row-reached org id expected write ws t id r e hit))
          ∙ ws.next_version r
          ∙ ap (λ v. v + 1) (version-at_version org id expected r hit))
