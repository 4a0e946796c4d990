-- ===== src/Remediation/Deliveries.antt =====
-- A delivery of ViolationCreated to src/modules/remediation that answers with a task, after any run.
use mathlib.Core.Option
use mathlib.Core.Option.{some-injective}
use dpdpos_backend.Prelude.{
  String, JsText, List, ◌∷◌, Memᴰ, ◌≡◌, refl, Bool, false, ◌&&◌, str_eq, sym, subst, ◌∙◌, inl, inr,
  true, Option, none, some, arith, ap, eq_iff, truthy,
}
use dpdpos_backend.Shared.Errors.{Result, ok, bind_ok}
use dpdpos_backend.Shared.Context.{RequestContext, Call}
use dpdpos_backend.Shared.Tenant.{tenant_where, in_tenant, require_organization_id}
use dpdpos_backend.Shared.Transaction.{with_transaction_ok, checked_ok, on_created_ok}
use dpdpos_backend.Database.Prisma.{Prisma, Db}
use dpdpos_backend.Remediation.Types.{
  RemediationTask, RemediationTaskResponse, to_remediation_task_response, ViolationCreatedPayload,
  is_auto, task_clash,
}
use dpdpos_backend.Violations.Types.{Violation}
use dpdpos_backend.Remediation.Repository.{
  new_task, create, find_auto_task_by_violation, find_violation,
}
use dpdpos_backend.Remediation.Inputs.{auto_data}
use dpdpos_backend.Remediation.Service.{
  auto_task_in_transaction, raced_task, auto_task_unless_found, unless_missing, for_violation,
  create_from_violation_created,
}
use dpdpos_backend.Remediation.Creation.{create_lem}
use dpdpos_backend.Remediation.Runs.{Run, step, violation_created, serve, Grows, run-Grows}
use dpdpos_backend.Remediation.Dedupe.{IsDeduplicated, run-IsDeduplicated}

module _ (p : Prisma) where
  open p use {remediation_task}

  -- An AUTO task of an organization for a violation.
  pub record IsAutoTask (org violation_id : String) (r : RemediationTask) : Type 0 where
    pub source_auto : is_auto r.source ≡ true
    pub of_organization : r.organization_id ≡ org
    pub of_violation : r.violation_id ≡ violation_id

  abbrev HasTask : String → String → String → Db p → Type 0
  HasTask org violation_id id db =
      (r : RemediationTask) × (remediation_task.row db.tasks id ≡ some r)
      × IsAutoTask org violation_id r

  -- The task is there, and any AUTO task of the organization for the violation is that one.
  abbrev pub HasOnlyTask : String → String → String → Db p → Type 0
  HasOnlyTask org violation_id id db =
      HasTask org violation_id id db
      × ((l : String) (s : RemediationTask)
          → remediation_task.row db.tasks l ≡ some s
          → IsAutoTask org violation_id s
          → l ≡ id)

  abbrev is_auto_task_of : String → String → RemediationTask → Bool
  is_auto_task_of org violation_id r =
      str_eq r.violation_id violation_id
      && is_auto r.source
      && in_tenant org false r.organization_id r.deleted_at

  is_auto_task_of-IsAutoTask :
      (org violation_id : String) (r : RemediationTask)
      → is_auto_task_of org violation_id r ≡ true
      → IsAutoTask org violation_id r
  is_auto_task_of-IsAutoTask org violation_id r h =
      ground (arith, eq_iff r.violation_id violation_id, eq_iff r.organization_id org)

  first_task :
      (org violation_id : String) (db : Db p) (s : RemediationTask)
      → remediation_task.find_first (is_auto_task_of org violation_id) db.tasks ≡ some s
      → HasTask org violation_id s.id db
  first_task org violation_id db s h =
      let (there, meets) =
        remediation_task.find_first_some (is_auto_task_of org violation_id) db.tasks s h in
      (s, there, is_auto_task_of-IsAutoTask org violation_id s meets)

  found_task :
      (org violation_id : String) (db : Db p) (s : RemediationTask)
      → find_auto_task_by_violation p org violation_id db ≡ ok (some s)
      → HasTask org violation_id s.id db
  unfolding find_auto_task_by_violation tenant_where require_organization_id
  found_task org violation_id db s h = first_task org violation_id db s (ground arith)

  new_task-IsAutoTask :
      (call : Call) (ctx : RequestContext) (violation_id : String) (title : Option JsText)
      → IsAutoTask ctx.organization_id violation_id
          (new_task call ctx (auto_data violation_id title))
  unfolding new_task auto_data
  new_task-IsAutoTask call ctx violation_id title = record {
    source_auto = refl;
    of_organization = refl;
    of_violation = refl;
  }

  created_task :
      (call : Call) (ctx : RequestContext) (violation_id : String) (title : Option JsText)
      (db db' : Db p) (task : RemediationTask)
      → create p call ctx (auto_data violation_id title) db ≡ some (task, db')
      → HasTask ctx.organization_id violation_id task.id db'
  created_task call ctx violation_id title db db' task h =
      let (same, made, rest) = create_lem p call ctx (auto_data violation_id title) db db' task h in
      let new = new_task call ctx (auto_data violation_id title) in
      (
        new,
        remediation_task.row-create new db.tasks db'.tasks made task.id
            ∙ ground (arith, same, eq_iff new.id task.id, ap (λ (r : RemediationTask). r.id) same),
        new_task-IsAutoTask call ctx violation_id title,
      )

  -- A row that was there is there later, and of the same violation.
  later_task :
      (org violation_id id : String) (db db' : Db p)
      → Grows p db db'
      → HasTask org violation_id id db
      → HasTask org violation_id id db'
  later_task org violation_id id db db' grows (r, there, auto) =
      let (r', there', later) = grows id r there in
      (
        r',
        there',
        record {
          source_auto = ap is_auto later.same_source ∙ auto.source_auto;
          of_organization = later.same_organization ∙ auto.of_organization;
          of_violation = later.same_violation ∙ auto.of_violation;
        },
      )

  response_id : (r : RemediationTask) → (to_remediation_task_response r).id ≡ r.id
  unfolding to_remediation_task_response
  response_id r = refl

  -- What an answer with a task says of the task that was looked up.
  answered :
      (found : Option RemediationTask) (db db' : Db p) (response : RemediationTaskResponse)
      → ◌≡◌ {A = Result (Option RemediationTaskResponse × Db p)}
          (ok (Option.map to_remediation_task_response found, db))
          (ok (some response, db'))
      → (s : RemediationTask) × (found ≡ some s) × (s.id ≡ response.id) × (db ≡ db')
  unfolding to_remediation_task_response
  answered none db db' response h = cc h
  answered (some s) db db' response h = (s, refl, ground arith, ground arith)

  transaction_task :
      (call : Call) (ctx : RequestContext) (violation_id : String) (title : Option JsText)
      (db db' : Db p) (response : RemediationTaskResponse)
      → auto_task_in_transaction p call ctx violation_id title db ≡ ok (some response, db')
      → HasTask ctx.organization_id violation_id response.id db'
  unfolding auto_task_in_transaction raced_task
  transaction_task call ctx violation_id title db db' response h =
      elim (on_created_ok (create p call ctx (auto_data violation_id title) db) _ _ h) [
        | inl (e, raced) ↦
            let (found, read, done) =
              bind_ok (find_auto_task_by_violation p ctx.organization_id violation_id db) _ raced in
            let (s, is_s, same, state) = answered found db db' response done in
            subst (λ (d : Db p). HasTask ctx.organization_id violation_id response.id d) state
              (subst (λ i. HasTask ctx.organization_id violation_id i db) same
                (found_task ctx.organization_id violation_id db s (read ∙ ap ok is_s)))
        | inr (task, db1, e, rest) ↦
            let (s, is_s, same, state) = answered (some task) db1 db' response rest in
            subst (λ (d : Db p). HasTask ctx.organization_id violation_id response.id d) state
              (subst (λ i. HasTask ctx.organization_id violation_id i db1)
                (ap (λ (r : RemediationTask). r.id) (some-injective _ _ is_s) ∙ same)
                (created_task call ctx violation_id title db db1 task e))
      ]

  unless_found :
      (call : Call) (ctx : RequestContext) (violation_id : String) (title : Option JsText)
      (found : Option RemediationTask) (read db : Db p) (response : RemediationTaskResponse)
      → find_auto_task_by_violation p ctx.organization_id violation_id read ≡ ok found
      → Grows p read db
      → (auto_task_unless_found p call ctx violation_id title read found db).0 ≡ ok (some response)
      → HasTask ctx.organization_id violation_id response.id
          (auto_task_unless_found p call ctx violation_id title read found db).1
  unfolding auto_task_unless_found to_remediation_task_response unless_missing
  unless_found call ctx violation_id title (some task) read db response looked grows h =
      subst (λ i. HasTask ctx.organization_id violation_id i db) (ground arith)
        (later_task ctx.organization_id violation_id task.id read db grows
          (found_task ctx.organization_id violation_id read task looked))
  unless_found call ctx violation_id title none read db response looked grows h =
      go (find_violation p ctx.organization_id violation_id read) h
    where
      go :
          (v : Option Violation)
          → (unless_missing p call ctx violation_id title v db).0 ≡ ok (some response)
          → HasTask ctx.organization_id violation_id response.id
              (unless_missing p call ctx violation_id title v db).1
      go none h = cc h
      go (some v) h =
          let (db', done, e) =
            with_transaction_ok (auto_task_in_transaction p call ctx violation_id title) db h in
          rw e (transaction_task call ctx violation_id title db db' response done)

  -- A delivery that answers with a task leaves it in the table.
  delivered_task :
      (call : Call) (ctx : RequestContext) (payload : ViolationCreatedPayload)
      (violation_id : String) (read db : Db p) (response : RemediationTaskResponse)
      → truthy payload.violation_id ≡ some violation_id
      → Grows p read db
      → (create_from_violation_created p call ctx payload read db).0 ≡ ok (some response)
      → HasTask ctx.organization_id violation_id response.id
          (create_from_violation_created p call ctx payload read db).1
  unfolding create_from_violation_created for_violation
  delivered_task call ctx payload violation_id read db response given grows h =
      subst
        (λ o.
          HasTask ctx.organization_id violation_id response.id
            (for_violation p call ctx payload.title read o db).1)
        (sym given)
        (let looked_up : (for_violation p call ctx payload.title read (some violation_id) db).0
              ≡ ok (some response) =
            ap (λ o. (for_violation p call ctx payload.title read o db).0) (sym given) ∙ h in
          let (found, looked, e) =
            checked_ok (find_auto_task_by_violation p ctx.organization_id violation_id read)
              (auto_task_unless_found p call ctx violation_id payload.title read) db looked_up in
          subst
            (λ (r : Result (Option RemediationTaskResponse) × Db p).
              HasTask ctx.organization_id violation_id response.id r.1)
            (sym e)
            (unless_found call ctx violation_id payload.title found read db response looked grows
              (ap (λ r. r.0) (sym e) ∙ looked_up)))

  IsAutoTask-task_clash :
      (org violation_id : String) (r s : RemediationTask)
      → IsAutoTask org violation_id r
      → IsAutoTask org violation_id s
      → task_clash r s ≡ true
  IsAutoTask-task_clash org violation_id r s a b = ground (
    arith,
    a.source_auto,
    b.source_auto,
    eq_iff r.organization_id s.organization_id,
    eq_iff r.violation_id s.violation_id,
    a.of_organization ∙ sym b.of_organization,
    a.of_violation ∙ sym b.of_violation,
  )

  -- From a database in which no violation has two AUTO tasks, after any run of requests, a delivery of
  -- ViolationCreated that answers with a task leaves that task in the table as an AUTO task of the
  -- caller's organization for the violation, and as the only one. The checks of the delivery read one
  -- state that the run has been in, its transaction meets the last one.
  pub delivery_leaves_one :
      (start read : Db p) (past : List (Db p)) (db : Db p)
      → Run p start past db
      → IsDeduplicated p start
      → Memᴰ read (db ∷ past)
      → (call : Call) (ctx : RequestContext) (payload : ViolationCreatedPayload)
        (violation_id : String) (response : RemediationTaskResponse)
      → truthy payload.violation_id ≡ some violation_id
      → (create_from_violation_created p call ctx payload read db).0 ≡ ok (some response)
      → HasOnlyTask ctx.organization_id violation_id response.id
          (create_from_violation_created p call ctx payload read db).1
  unfolding serve
  delivery_leaves_one start read past db run clean looked call ctx payload violation_id response
        given h =
      let (r, there, auto) =
        delivered_task call ctx payload violation_id read db response given
          (run-Grows p start read past db run looked) h in
      let after = (create_from_violation_created p call ctx payload read db).1 in
      let single : IsDeduplicated p after =
        run-IsDeduplicated p start (db ∷ past) after
          (step run looked (violation_created call ctx payload) refl) clean in
      (
        (r, there, auto),
        λ l s e other.
            single l response.id s r e there
              (IsAutoTask-task_clash ctx.organization_id violation_id s r other auto),
      )
