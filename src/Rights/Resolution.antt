-- ===== src/Rights/Resolution.antt =====
-- Closed requests of src/modules/rights/services/data-subject-request.service.ts, over operations that
-- follow one another: nothing happens between the checks of an operation and its transaction.
use mathlib.Core.Option.{some-injective}
use dpdpos_backend.Prelude.{
  String, JsText, trim, is_nonempty, ◌≡◌, refl, sym, ap, ◌∙◌, subst, inl, inr, Bool, true, false,
  Option, none, some, List, [], ◌∷◌, is_some, arith, patch, given, Bool-cases, str_eq,
}
use dpdpos_backend.Shared.Errors.{ok, bind_ok}
use dpdpos_backend.Shared.Context.{RequestContext, Call}
use dpdpos_backend.Shared.Transaction.{
  with_transaction, with_transaction_cases, checked_cases, or_stale_ok, on_created_ok,
}
use dpdpos_backend.Shared.Users.{assert_assignee_in_organization}
use dpdpos_backend.Database.Versioned.{optimistic_update, IsVersionedWrite, row_origin}
use dpdpos_backend.Database.ByTenant.{find_in_tenant, find_in_tenant-some}
use dpdpos_backend.Database.Prisma.{Prisma, Db}
use dpdpos_backend.Rights.Lifecycle.{closed, same_status, is_terminal}
use dpdpos_backend.Rights.Types.{
  DataSubjectRequest, DataSubjectRequestResponse, CreateDataSubjectRequestDto,
  UpdateDataSubjectRequestDto,
}
use dpdpos_backend.Rights.Repository.{
  UpdateDataSubjectRequestData, request_columns, write_request, new_request, find_by_id, create,
  update,
}
use dpdpos_backend.Rights.Service.{
  has_resolution, check_transition, check_resolution, is_entering_terminal, update_data,
  submit_data, require_request, publish_then, submit_in_transaction, submit, update_checks,
  finish_update, update_in_transaction, update_request,
}

abbrev pub is_resolved : Option JsText → Bool
is_resolved none = false
is_resolved (some s) = is_nonempty (trim s)

-- A request that is over is dated, and a closed one has a resolution that is not blank.
pub record IsWellClosed (r : DataSubjectRequest) : Type 0 where
  pub dated : is_terminal r.status ≡ true → is_some r.closed_at ≡ true
  pub resolved : same_status r.status closed ≡ true → is_resolved r.resolution_summary ≡ true

write_request-IsVersionedWrite :
    (p : Prisma) (call : Call) (ctx : RequestContext) (d : UpdateDataSubjectRequestData)
    → IsVersionedWrite p.data_subject_request request_columns (write_request call ctx d)
unfolding write_request
write_request-IsVersionedWrite p call ctx d = record {
  same_key = λ r. refl;
  same_organization = λ r. refl;
  same_deletion = λ r. refl;
  next_version = λ r. refl;
}

new_request-IsWellClosed :
    (call : Call) (ctx : RequestContext) (input : CreateDataSubjectRequestDto)
    → IsWellClosed (new_request call ctx (submit_data call input))
unfolding new_request is_terminal
new_request-IsWellClosed call ctx input = record { dated = λ h. cc h; resolved = λ h. cc h }

write_dated :
    (call : Call) (ctx : RequestContext) (input : UpdateDataSubjectRequestDto)
    (r : DataSubjectRequest)
    → check_transition r.status input.status ≡ ok tt
    → (is_terminal r.status ≡ true → is_some r.closed_at ≡ true)
    → is_terminal (write_request call ctx (update_data call input r) r).status ≡ true
    → is_some (write_request call ctx (update_data call input r) r).closed_at ≡ true
unfolding write_request update_data check_transition is_entering_terminal is_terminal
write_dated call ctx input r legal before h = ground arith

write_resolved :
    (call : Call) (ctx : RequestContext) (input : UpdateDataSubjectRequestDto)
    (r : DataSubjectRequest)
    → check_resolution (patch input.status r.status) input ≡ ok tt
    → same_status (write_request call ctx (update_data call input r) r).status closed ≡ true
    → is_resolved (write_request call ctx (update_data call input r) r).resolution_summary ≡ true
unfolding write_request update_data check_resolution has_resolution
write_resolved call ctx input r stated h = ground arith

-- What the service does to the table of requests.
pub data RequestOp : Type 0 where
  submitting : Call → RequestContext → CreateDataSubjectRequestDto → RequestOp
  updating_request : Call → RequestContext → String → UpdateDataSubjectRequestDto → RequestOp

module _ (p : Prisma) where
  open p use {data_subject_request}

  unfoldable pub perform : RequestOp → Db p → Db p
  perform (submitting call ctx input) db = (submit p call ctx input db db).1
  perform (updating_request call ctx id input) db = (update_request p call ctx id input db db).1

  unfoldable pub perform_all : List RequestOp → Db p → Db p
  perform_all [] db = db
  perform_all (op ∷ ops) db = perform_all ops (perform op db)

  abbrev pub AllWellClosed : Db p → Type 0
  AllWellClosed db =
      (k : String) (r : DataSubjectRequest)
      → data_subject_request.row db.requests k ≡ some r
      → IsWellClosed r

  create_lem :
      (call : Call) (ctx : RequestContext) (input : CreateDataSubjectRequestDto) (db db1 : Db p)
      (r : DataSubjectRequest)
      → create p call ctx (submit_data call input) db ≡ some (r, db1)
      → data_subject_request.create (new_request call ctx (submit_data call input)) db.requests
        ≡ some db1.requests
  unfolding create
  create_lem call ctx input db db1 r h = ground arith

  submit_in_transaction_lem :
      (call : Call) (ctx : RequestContext) (input : CreateDataSubjectRequestDto) (db db' : Db p)
      (response : DataSubjectRequestResponse)
      → submit_in_transaction p call ctx input db ≡ ok (response, db')
      → data_subject_request.create (new_request call ctx (submit_data call input)) db.requests
        ≡ some db'.requests
  unfolding submit_in_transaction publish_then
  submit_in_transaction_lem call ctx input db db' response h =
      elim (on_created_ok (create p call ctx (submit_data call input) db) _ _ h) [
        | inl (e, bad) ↦ cc bad
        | inr (r, db1, e, rest) ↦ ground (arith, create_lem call ctx input db db1 r e)
      ]

  created-AllWellClosed :
      (new : DataSubjectRequest) (db db' : Db p)
      → data_subject_request.create new db.requests ≡ some db'.requests
      → IsWellClosed new
      → AllWellClosed db
      → AllWellClosed db'
  created-AllWellClosed new db db' made fresh all k r e = elim (Bool-cases (str_eq new.id k)) [
    | inl same ↦
        subst IsWellClosed
          (some-injective _ _ (
            sym (data_subject_request.row-create new db.requests db'.requests made k ∙ rw same refl)
            ∙ e))
          fresh
    | inr other ↦ all k r (
        sym (data_subject_request.row-create new db.requests db'.requests made k ∙ rw other refl)
        ∙ e)
  ]

  require_request_lem :
      (ctx : RequestContext) (id : String) (db : Db p) (r : DataSubjectRequest)
      → require_request p ctx id db ≡ ok r
      → data_subject_request.row db.requests id ≡ some r
  unfolding require_request find_by_id
  require_request_lem ctx id db r h =
      let (found, seen, rest) =
        bind_ok
          (find_in_tenant data_subject_request request_columns ctx.organization_id false id
            db.requests)
          _ h in
      (find_in_tenant-some data_subject_request request_columns ctx.organization_id id db.requests r
        (ground arith)).0

  update_checks_lem :
      (ctx : RequestContext) (id : String) (input : UpdateDataSubjectRequestDto) (db : Db p)
      (r : DataSubjectRequest)
      → update_checks p ctx id input db ≡ ok r
      → (data_subject_request.row db.requests id ≡ some r)
        × (check_transition r.status input.status ≡ ok tt)
        × (check_resolution (patch input.status r.status) input ≡ ok tt)
  unfolding update_checks
  update_checks_lem ctx id input db r h =
      let (s, required, h1) = bind_ok (require_request p ctx id db) _ h in
      let (u, assignee, h2) =
        bind_ok (assert_assignee_in_organization p ctx (given input.assigned_to) db) _ h1 in
      let (v, legal, h3) = bind_ok (check_transition s.status input.status) _ h2 in
      let (w, stated, h4) = bind_ok (check_resolution (patch input.status s.status) input) _ h3 in
      let there = require_request_lem ctx id db s required in ground arith

  update_in_transaction_lem :
      (call : Call) (ctx : RequestContext) (id : String) (input : UpdateDataSubjectRequestDto)
      (existing : DataSubjectRequest) (db db' : Db p) (response : DataSubjectRequestResponse)
      → update_in_transaction p call ctx id input existing db ≡ ok (response, db')
      → db'.requests
        ≡ (optimistic_update data_subject_request request_columns ctx.organization_id id
            input.version
            (write_request call ctx (update_data call input existing))
            db.requests).1
  unfolding update_in_transaction finish_update update publish_then
  update_in_transaction_lem call ctx id input existing db db' response h =
      let written = update p call ctx id input.version (update_data call input existing) db in
      let (r, found, rest) = or_stale_ok written (finish_update p call ctx input existing) h in
      ground arith

  submit-AllWellClosed :
      (call : Call) (ctx : RequestContext) (input : CreateDataSubjectRequestDto) (db : Db p)
      → AllWellClosed db
      → AllWellClosed (submit p call ctx input db db).1
  unfolding submit
  submit-AllWellClosed call ctx input db all =
      elim (checked_cases (assert_assignee_in_organization p ctx input.assigned_to db)
        (λ _. with_transaction (submit_in_transaction p call ctx input)) db) [
          | inl same ↦ subst AllWellClosed (sym same) all
          | inr (u, passed, e) ↦
              elim (with_transaction_cases (submit_in_transaction p call ctx input) db) [
                | inl same ↦ subst AllWellClosed (sym (ap (λ r. r.1) e ∙ same)) all
                | inr (response, db', done, f) ↦ subst AllWellClosed (sym (ap (λ r. r.1) (e ∙ f))) (
                    created-AllWellClosed (new_request call ctx (submit_data call input)) db db'
                      (submit_in_transaction_lem call ctx input db db' response done)
                      (new_request-IsWellClosed call ctx input) all)
              ]
        ]

  updated-AllWellClosed :
      (call : Call) (ctx : RequestContext) (id : String) (input : UpdateDataSubjectRequestDto)
      (existing : DataSubjectRequest) (db db' : Db p)
      → update_checks p ctx id input db ≡ ok existing
      → db'.requests
        ≡ (optimistic_update data_subject_request request_columns ctx.organization_id id
            input.version
            (write_request call ctx (update_data call input existing))
            db.requests).1
      → AllWellClosed db
      → AllWellClosed db'
  updated-AllWellClosed call ctx id input existing db db' passed e all k r' h =
      let (seen, legal, stated) = update_checks_lem ctx id input db existing passed in
      let d = update_data call input existing in
      let (r, there, cases) =
        row_origin data_subject_request request_columns ctx.organization_id id input.version
          (write_request call ctx d) (write_request-IsVersionedWrite p call ctx d) db.requests k r'
          (subst (λ t. data_subject_request.row t k ≡ some r') e h) in
      elim cases [
        | inl same ↦ subst IsWellClosed (sym same) (all k r there)
        | inr (hit, at_id, same) ↦
            let is_seen : r ≡ existing =
              some-injective _ _
                (sym there ∙ ap (λ j. data_subject_request.row db.requests j) at_id ∙ seen) in
            let before = all id existing seen in
            subst IsWellClosed (sym (same ∙ ap (write_request call ctx d) is_seen)) (record {
              dated = write_dated call ctx input existing legal before.dated;
              resolved = write_resolved call ctx input existing stated;
            })
      ]

  update-AllWellClosed :
      (call : Call) (ctx : RequestContext) (id : String) (input : UpdateDataSubjectRequestDto)
      (db : Db p)
      → AllWellClosed db
      → AllWellClosed (update_request p call ctx id input db db).1
  unfolding update_request
  update-AllWellClosed call ctx id input db all =
      elim (checked_cases (update_checks p ctx id input db)
        (λ existing. with_transaction (update_in_transaction p call ctx id input existing)) db) [
          | inl same ↦ subst AllWellClosed (sym same) all
          | inr (existing, passed, e) ↦
              elim (with_transaction_cases (update_in_transaction p call ctx id input existing)
                db) [
                  | inl same ↦ subst AllWellClosed (sym (ap (λ r. r.1) e ∙ same)) all
                  | inr (response, db', done, f) ↦
                      subst AllWellClosed (sym (ap (λ r. r.1) (e ∙ f))) (
                        updated-AllWellClosed call ctx id input existing db db' passed
                          (update_in_transaction_lem call ctx id input existing db db' response
                            done)
                          all)
                ]
        ]

  perform-AllWellClosed :
      (op : RequestOp) (db : Db p) → AllWellClosed db → AllWellClosed (perform op db)
  unfolding perform
  perform-AllWellClosed (submitting call ctx input) db all =
      submit-AllWellClosed call ctx input db all
  perform-AllWellClosed (updating_request call ctx id input) db all =
      update-AllWellClosed call ctx id input db all

  -- If every CLOSED or REJECTED request has a closing date and every CLOSED one a resolution that is
  -- not blank, then so it is after any sequence of submissions and updates that follow one another.
  pub perform_all-AllWellClosed :
      (ops : List RequestOp) (db : Db p) → AllWellClosed db → AllWellClosed (perform_all ops db)
  unfolding perform_all
  perform_all-AllWellClosed [] db all = all
  perform_all-AllWellClosed (op ∷ ops) db all =
      perform_all-AllWellClosed ops (perform op db) (perform-AllWellClosed op db all)
