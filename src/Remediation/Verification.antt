-- ===== src/Remediation/Verification.antt =====
-- "Verification before closure" (the lifecycle's comment) for src/modules/remediation, over
-- runs of requests.
use mathlib.Core.Option.{some-injective}
use dpdpos_backend.Prelude.{
  ℕ, String, List, ◌∷◌, Memᴰ, ◌≡◌, refl, sym, subst, ◌∙◌, inl, inr, Bool, true, false, Option, none,
  some, arith, is_some, patch, patch_some,
}
use dpdpos_backend.Shared.Context.{RequestContext, Call}
use dpdpos_backend.Database.Versioned.{row_origin}
use dpdpos_backend.Database.Prisma.{Prisma, Db}
use dpdpos_backend.Remediation.Lifecycle.{RemediationTaskStatus, verified, closed, can_transition}
use dpdpos_backend.Remediation.Types.{RemediationTask}
use dpdpos_backend.Remediation.Repository.{UpdateRemediationTaskData, task_columns, write_task}
use dpdpos_backend.Remediation.Writes.{write_task-IsVersionedWrite}
use dpdpos_backend.Remediation.Effects.{TaskEffect, kept, added, edited, Allowed, AllowedStatus}
use dpdpos_backend.Remediation.Runs.{tenant_of, Run, here, step, serve_effect, run-Grows, Grows}

-- The statuses that a task has only after its verification.
abbrev pub needs_stamp : RemediationTaskStatus → Bool
needs_stamp verified = true
needs_stamp closed = true
needs_stamp _ = false

abbrev pub IsStamped : RemediationTask → Type 0
IsStamped r = needs_stamp r.status ≡ true → is_some r.verified_at ≡ true

-- The status and the stamp after a write that the state machine allowed for the row seen before.
stamp_after :
    (from : RemediationTaskStatus) (wanted : Option RemediationTaskStatus)
    (old : RemediationTaskStatus) (seen_stamp stamp old_stamp : Option ℕ)
    → AllowedStatus from wanted stamp
    → (needs_stamp from ≡ true → is_some seen_stamp ≡ true)
    → (is_some seen_stamp ≡ true → is_some old_stamp ≡ true)
    → (needs_stamp old ≡ true → is_some old_stamp ≡ true)
    → needs_stamp (patch wanted old) ≡ true
    → is_some (patch_some stamp old_stamp) ≡ true
unfolding can_transition
stamp_after from none old seen_stamp stamp old_stamp allowed a b c h = ground arith
stamp_after from (some to) old seen_stamp stamp old_stamp allowed a b c h = ground arith

module _ (p : Prisma) where
  open p use {remediation_task}

  abbrev pub AllStamped : Db p → Type 0
  AllStamped db =
      (k : String) (r : RemediationTask) → remediation_task.row db.tasks k ≡ some r → IsStamped r

  write-IsStamped :
      (call : Call) (ctx : RequestContext) (id : String) (d : UpdateRemediationTaskData)
      (read db : Db p)
      → Allowed p read ctx id d
      → AllStamped read
      → Grows p read db
      → (r : RemediationTask) → remediation_task.row db.tasks id ≡ some r
      → IsStamped r
      → IsStamped (write_task call ctx d r)
  unfolding write_task
  write-IsStamped call ctx id d read db allowed before grows r e stamped h =
      let (r', there, later) = grows id allowed.existing allowed.seen in
      stamp_after allowed.existing.status d.status r.status allowed.existing.verified_at
        d.verified_at r.verified_at allowed.status_allowed (before id allowed.existing allowed.seen)
        (λ s.
          subst (λ (t : RemediationTask). is_some t.verified_at ≡ true)
            (some-injective _ _ (sym there ∙ e)) (later.stamp_kept s))
        stamped h

  effect-AllStamped :
      (org : String) (read db db' : Db p)
      → TaskEffect p org read db db'
      → AllStamped read
      → Grows p read db
      → AllStamped db
      → AllStamped db'
  effect-AllStamped org read db db' (kept same) before grows all k r e = all k r (rw (← same) e)
  effect-AllStamped org read db db' (added s made new own) before grows all k r e =
      λ h. ground (arith, remediation_task.row-create s db.tasks db'.tasks made k, all k r)
  effect-AllStamped org read db db' (edited call ctx id expected d own allowed e') before grows all
        k r e =
      let (old, there, from) =
        row_origin remediation_task task_columns ctx.organization_id id expected
          (write_task call ctx d) (write_task-IsVersionedWrite p call ctx d) db.tasks k r
          (subst (λ t. remediation_task.row t k ≡ some r) e' e) in
      elim from [
        | inl same ↦ subst IsStamped (sym same) (all k old there)
        | inr (hit, at_id, written) ↦ subst IsStamped (sym written) (
            write-IsStamped call ctx id d read db allowed before grows old
              (subst (λ j. remediation_task.row db.tasks j ≡ some old) at_id there)
              (all k old there))
      ]

  -- Every state of a run, the first one being stamped.
  states-AllStamped :
      (start seen : Db p) (past : List (Db p)) (db : Db p)
      → Run p start past db
      → AllStamped start
      → Memᴰ seen (db ∷ past)
      → AllStamped seen
  states-AllStamped start seen _ db here all (Memᴰ.head e) = subst AllStamped (sym e) all
  states-AllStamped start seen _ db here all (Memᴰ.tail m) = elim m [ ]
  states-AllStamped start seen _ db (step {past = past} {read = read} {mid = mid} before looked q e)
        all (Memᴰ.head e') =
      let before-all = states-AllStamped start read past mid before all looked in
      let mid-all = states-AllStamped start mid past mid before all (Memᴰ.head refl) in
      subst AllStamped (sym e') (
        effect-AllStamped (tenant_of q) read mid db
          (subst (λ d. TaskEffect p (tenant_of q) read mid d) (sym e) (serve_effect p q read mid))
          before-all (run-Grows p start read past mid before looked) mid-all)
  states-AllStamped start seen _ db (step {past = past} {mid = mid} before looked q e) all
        (Memᴰ.tail m) =
      states-AllStamped start seen past mid before all m

  -- From a database in which every VERIFIED or CLOSED task carries the time of its verification, every
  -- run of requests leads to one in which every VERIFIED or CLOSED task does. The checks of a request
  -- read one state that the run has been in, its transaction meets the last one.
  pub run-AllStamped :
      (start : Db p) (past : List (Db p)) (db : Db p)
      → Run p start past db
      → AllStamped start
      → AllStamped db
  run-AllStamped start past db run all = states-AllStamped start db past db run all (Memᴰ.head refl)
