-- ===== src/Remediation/Dedupe.antt =====
-- At most one AUTO task for a violation: the handler of ViolationCreated in src/modules/remediation
-- over runs of requests.
use dpdpos_backend.Prelude.{
  String, List, ◌≡◌, refl, sym, subst, ◌∙◌, ◌⊎◌, inl, inr, true, some, arith, eq_iff, str_eq,
  Bool-cases, if◌then◌else◌,
}
use dpdpos_backend.Database.Versioned.{row_origin}
use dpdpos_backend.Database.Prisma.{Prisma, Db}
use dpdpos_backend.Remediation.Types.{RemediationTask, task_clash}
use dpdpos_backend.Remediation.Repository.{task_columns, write_task}
use dpdpos_backend.Remediation.Writes.{write_task-IsVersionedWrite}
use dpdpos_backend.Remediation.Effects.{TaskEffect, kept, added, edited}
use dpdpos_backend.Remediation.Runs.{
  tenant_of, Run, here, step, serve_effect, IsLater, IsLater-write, IsLater-refl,
}

task_clash_symm : (r s : RemediationTask) → task_clash r s ≡ true → task_clash s r ≡ true
task_clash_symm r s h = ground (
  arith,
  eq_iff r.organization_id s.organization_id,
  eq_iff s.organization_id r.organization_id,
  eq_iff r.violation_id s.violation_id,
  eq_iff s.violation_id r.violation_id,
)

task_clash-IsLater :
    (r r' s s' : RemediationTask) → IsLater r r' → IsLater s s' → task_clash r' s' ≡ task_clash r s
task_clash-IsLater r r' s s' a b = rw (
  a.same_source, b.same_source, a.same_organization, b.same_organization, a.same_violation,
  b.same_violation,
)

module _ (p : Prisma) where
  open p use {remediation_task}

  -- Two AUTO tasks of one organization for one violation are the same row.
  abbrev pub IsDeduplicated : Db p → Type 0
  IsDeduplicated db =
      (k l : String) (r s : RemediationTask)
      → remediation_task.row db.tasks k ≡ some r
      → remediation_task.row db.tasks l ≡ some s
      → task_clash r s ≡ true
      → k ≡ l

  -- Every row of the new state is a later form of one of the old state, or the row just made.
  origin :
      (org : String) (read db db' : Db p)
      → TaskEffect p org read db db'
      → (k : String) (r' : RemediationTask) → remediation_task.row db'.tasks k ≡ some r'
      → ((r : RemediationTask) × (remediation_task.row db.tasks k ≡ some r) × IsLater r r')
        ⊎ ((remediation_task.create r' db.tasks ≡ some db'.tasks) × (r'.id ≡ k))
  origin org read db db' (kept same) k r' e = inl (r', rw (← same) e, IsLater-refl r')
  origin org read db db' (added s made new own) k r' e = elim (Bool-cases (str_eq s.id k)) [
    | inl at_new ↦
        inr (ground (arith, remediation_task.row-create s db.tasks db'.tasks made k, eq_iff s.id k))
    | inr elsewhere ↦ inl (
      r',
      ground (arith, remediation_task.row-create s db.tasks db'.tasks made k),
      IsLater-refl r',
    )
  ]
  origin org read db db' (edited call ctx id expected d own allowed e') k r' e =
      let (old, there, from) =
        row_origin remediation_task task_columns ctx.organization_id id expected
          (write_task call ctx d) (write_task-IsVersionedWrite p call ctx d) db.tasks k r'
          (subst (λ t. remediation_task.row t k ≡ some r') e' e) in
      inl (
        old,
        there,
        elim from [
          | inl same ↦ subst (IsLater old) (sym same) (IsLater-refl old)
          | inr (hit, at_id, written) ↦
              subst (IsLater old) (sym written) (IsLater-write call ctx d old)
        ],
      )

  effect-IsDeduplicated :
      (org : String) (read db db' : Db p)
      → TaskEffect p org read db db'
      → IsDeduplicated db
      → IsDeduplicated db'
  effect-IsDeduplicated org read db db' f all k l r s e e' clash =
      elim (origin org read db db' f k r e) [
        | inl (r0, there, a) ↦ elim (origin org read db db' f l s e') [
          | inl (s0, there', b) ↦
              all k l r0 s0 there there' (sym (task_clash-IsLater r0 r s0 s a b) ∙ clash)
          | inr (made, new) ↦ cc (
            remediation_task.create_apart s db.tasks db'.tasks made k r0 there,
            sym (task_clash-IsLater r0 r s s a (IsLater-refl s)) ∙ clash,
          )
        ]
        | inr (made, new) ↦ elim (origin org read db db' f l s e') [
          | inl (s0, there', b) ↦ cc (
            remediation_task.create_apart r db.tasks db'.tasks made l s0 there',
            task_clash_symm r s0 (sym (task_clash-IsLater r r s0 s (IsLater-refl r) b) ∙ clash),
          )
          | inr (made', new') ↦ elim (Bool-cases (str_eq r.id l)) [
            | inl same ↦ sym new ∙ (eq_iff r.id l).0 same
            | inr differ ↦ cc (
              remediation_task.row-create r db.tasks db'.tasks made l,
              subst
                  (λ b.
                    (if b then some r else remediation_task.row db.tasks l)
                    ≡ remediation_task.row db.tasks l)
                  (sym differ) refl,
              e',
              remediation_task.create_fresh s db.tasks db'.tasks made',
              new',
            )
          ]
        ]
      ]

  -- The unique index over a run.
  pub run-IsDeduplicated :
      (start : Db p) (past : List (Db p)) (db : Db p)
      → Run p start past db
      → IsDeduplicated start
      → IsDeduplicated db
  run-IsDeduplicated start _ db here all = all
  run-IsDeduplicated start _ db (step {past = past} {read = read} {mid = mid} before looked q e)
        all =
      effect-IsDeduplicated (tenant_of q) read mid db
        (subst (λ d. TaskEffect p (tenant_of q) read mid d) (sym e) (serve_effect p q read mid))
        (run-IsDeduplicated start past mid before all)
