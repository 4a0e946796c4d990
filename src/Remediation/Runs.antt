-- ===== src/Remediation/Runs.antt =====
-- Runs of src/modules/remediation, and that task rows only grow over them. A run keeps the states that
-- it has been in: the checks of a request read one of them, and its transaction meets the last one.
use dpdpos_backend.Prelude.{
  ◌≤◌, String, List, [], ◌∷◌, Memᴰ, ◌≡◌, sym, subst, inl, inr, true, false, some, arith, is_some,
  str_eq, eq_iff, Bool-cases,
}
use dpdpos_backend.Shared.Context.{RequestContext, Call}
use dpdpos_backend.Database.Versioned.{at_version, row-reached, row-other}
use dpdpos_backend.Database.Prisma.{Prisma, Db}
use dpdpos_backend.Remediation.Types.{
  RemediationTask, CreateRemediationTaskDto, UpdateRemediationTaskDto, CloseRemediationTaskBody,
  ViolationCreatedPayload,
}
use dpdpos_backend.Remediation.Repository.{UpdateRemediationTaskData, task_columns, write_task}
use dpdpos_backend.Remediation.Service.{
  create_task, create_from_violation_created, update_task, close_task,
}
use dpdpos_backend.Remediation.Writes.{write_task-IsVersionedWrite}
use dpdpos_backend.Remediation.Effects.{
  TaskEffect, kept, added, edited, update_task_effect, close_task_effect,
}
use dpdpos_backend.Remediation.Creation.{create_task_effect, create_from_violation_created_effect}

pub differs : (i j : String) → ¬ (i ≡ j) → str_eq i j ≡ false
differs i j h = elim (Bool-cases (str_eq i j)) [ inl e ↦ absurd (h ((eq_iff i j).0 e)) | inr e ↦ e ]

-- A request to the service, with what it takes from outside.
pub data Request : Type 0 where
  create : Call → RequestContext → CreateRemediationTaskDto → Request
  violation_created : Call → RequestContext → ViolationCreatedPayload → Request
  update : Call → RequestContext → String → UpdateRemediationTaskDto → Request
  close : Call → RequestContext → String → CloseRemediationTaskBody → Request

-- A row that is there stays there, keeps the stamp of its verification, and never loses a version.
pub record IsLater (r r' : RemediationTask) : Type 0 where
  pub stamp_kept : is_some r.verified_at ≡ true → is_some r'.verified_at ≡ true
  pub version_kept : r.version ≤ r'.version
  pub same_organization : r'.organization_id ≡ r.organization_id
  pub same_violation : r'.violation_id ≡ r.violation_id
  pub same_source : r'.source ≡ r.source

pub IsLater-refl : (r : RemediationTask) → IsLater r r
IsLater-refl r = ground arith

pub IsLater-trans : (r s t : RemediationTask) → IsLater r s → IsLater s t → IsLater r t
IsLater-trans r s t a b = ground arith

pub IsLater-write :
    (call : Call) (ctx : RequestContext) (d : UpdateRemediationTaskData) (r : RemediationTask)
    → IsLater r (write_task call ctx d r)
unfolding write_task
IsLater-write call ctx d r = ground arith

-- The organization in whose name a request runs.
abbrev pub tenant_of : Request → String
tenant_of (create call ctx input) = ctx.organization_id
tenant_of (violation_created call ctx payload) = ctx.organization_id
tenant_of (update call ctx id input) = ctx.organization_id
tenant_of (close call ctx id input) = ctx.organization_id

module _ (p : Prisma) where
  open p use {remediation_task}

  -- The state that a request leaves, when its checks read one state and its transaction another.
  unfoldable pub serve : Request → Db p → Db p → Db p
  serve (create call ctx input) read db = (create_task p call ctx input read db).1
  serve (violation_created call ctx payload) read db =
      (create_from_violation_created p call ctx payload read db).1
  serve (update call ctx id input) read db = (update_task p call ctx id input read db).1
  serve (close call ctx id input) read db = (close_task p call ctx id input read db).1

  -- A run from a state: the states that it has been in before the last one, the newest first, and the
  -- last one. A request commits to the last state what it does for checks that read any state that the
  -- run has been in, so that the times between check and commit of two requests may cross.
  pub data Run (start : Db p) : List (Db p) → Db p → Type 0 where
    here : Run start [] start
    step :
        {past : List (Db p)} {read mid db : Db p}
        → Run start past mid
        → Memᴰ read (mid ∷ past)
        → (q : Request) → db ≡ serve q read mid
        → Run start (mid ∷ past) db

  pub serve_effect :
      (q : Request) (read db : Db p) → TaskEffect p (tenant_of q) read db (serve q read db)
  unfolding serve
  serve_effect (create call ctx input) read db = create_task_effect p call ctx input read db
  serve_effect (violation_created call ctx payload) read db =
      create_from_violation_created_effect p call ctx payload read db
  serve_effect (update call ctx id input) read db = update_task_effect p call ctx id input read db
  serve_effect (close call ctx id input) read db = close_task_effect p call ctx id input read db

  abbrev pub Grows : Db p → Db p → Type 0
  Grows db db' =
      (k : String) (r : RemediationTask)
      → remediation_task.row db.tasks k ≡ some r
      → (r' : RemediationTask) × (remediation_task.row db'.tasks k ≡ some r') × IsLater r r'

  pub effect-Grows :
      (org : String) (read db db' : Db p) → TaskEffect p org read db db' → Grows db db'
  effect-Grows org read db db' (kept same) k r e = (r, rw same e, IsLater-refl r)
  effect-Grows org read db db' (added s made new own) k r e = (
    r,
    rw (remediation_task.row-create s db.tasks db'.tasks made k) (
        rw
          (differs s.id k
            (λ same. cc (remediation_task.create_fresh s db.tasks db'.tasks made, e, same)))
          e),
    IsLater-refl r,
  )
  effect-Grows org read db db' (edited call ctx id expected d own allowed e') k r e =
      elim (Bool-cases
        (at_version remediation_task task_columns ctx.organization_id id expected r)) [
          | inl hit ↦ (
            write_task call ctx d r,
            rw e' (
                row-reached remediation_task task_columns ctx.organization_id id expected
                  (write_task call ctx d) (write_task-IsVersionedWrite p call ctx d) db.tasks k r e
                  hit),
            IsLater-write call ctx d r,
          )
          | inr miss ↦ (
            r,
            rw e' (
                row-other remediation_task task_columns ctx.organization_id id expected
                  (write_task call ctx d) (write_task-IsVersionedWrite p call ctx d) db.tasks k r e
                  miss),
            IsLater-refl r,
          )
        ]

  Grows-trans : (a b c : Db p) → Grows a b → Grows b c → Grows a c
  Grows-trans a b c f g k r e =
      let (s, e', l) = f k r e in let (t, e'', m) = g k s e' in (t, e'', IsLater-trans r s t l m)

  -- From any state that a run of requests has been in to its last one, a task row stays in the table
  -- with its organization, violation and source, its version never falls, and a verification stamp once
  -- written is never removed. The checks of a request read one state that the run has been in, its
  -- transaction meets the last one.
  pub run-Grows :
      (start seen : Db p) (past : List (Db p)) (db : Db p)
      → Run start past db
      → Memᴰ seen (db ∷ past)
      → Grows seen db
  run-Grows start seen past db run (Memᴰ.head e) = λ k r there.
      (r, subst (λ (d : Db p). remediation_task.row d.tasks k ≡ some r) e there, IsLater-refl r)
  run-Grows start seen _ db here (Memᴰ.tail m) = elim m [ ]
  run-Grows start seen _ db (step {past = past} {read = read} {mid = mid} before looked q e)
        (Memᴰ.tail m) =
      Grows-trans seen mid db (run-Grows start seen past mid before m) (
        effect-Grows (tenant_of q) read mid db
          (subst (λ d. TaskEffect p (tenant_of q) read mid d) (sym e) (serve_effect q read mid)))
