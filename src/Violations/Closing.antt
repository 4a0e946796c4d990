-- ===== src/Violations/Closing.antt =====
-- The two ways in which a violation of src/modules/violations becomes CLOSED: `close`, and `update`
-- with that status.
use dpdpos_backend.Prelude.{
  ℕ, ◌+◌, String, ◌≡◌, refl, sym, subst, ◌∙◌, true, Option, none, some, undefined, arith, ap,
  eq_iff, truthy,
}
use dpdpos_backend.Shared.Errors.{ok}
use dpdpos_backend.Shared.Context.{RequestContext, Call}
use dpdpos_backend.Shared.Tenant.{require_organization_id}
use dpdpos_backend.Shared.Transaction.{
  with_transaction, checked_ok, with_transaction_ok, or_stale_ok,
}
use dpdpos_backend.Shared.Users.{assert_assignee_in_organization}
use dpdpos_backend.Outbox.Events.{
  DomainEventName, Payload, OutboxWriteInput, new_outbox_event, event_of, write_outbox_event,
  violation_closed,
}
use dpdpos_backend.Database.Versioned.{
  optimistic_update, at_version, is_kept, IsVersionedWrite, row-reached, update_found, update_some,
}
use dpdpos_backend.Database.ByTenant.{find_in_tenant_row}
use dpdpos_backend.Database.Prisma.{Prisma, Db}
use dpdpos_backend.Violations.Lifecycle.{validated, closed, can_transition, is_terminal}
use dpdpos_backend.Violations.Types.{
  Violation, ViolationResponse, to_violation_response, UpdateViolationDto, CloseViolationBody,
}
use dpdpos_backend.Violations.Repository.{
  UpdateViolationData, violation_columns, write_violation, find_by_id, update,
}
use dpdpos_backend.Violations.Inputs.{closed_payload, update_data, close_data, check_transition}
use dpdpos_backend.Violations.Service.{
  require_violation, publish, update_checks, update_in_transaction, update_violation, close_checks,
  close_in_transaction, close_violation,
}

pub write_violation-IsVersionedWrite :
    (p : Prisma) (call : Call) (ctx : RequestContext) (d : UpdateViolationData)
    → IsVersionedWrite p.violation violation_columns (write_violation call ctx d)
unfolding write_violation
write_violation-IsVersionedWrite p call ctx d = record {
  same_key = λ r. refl;
  same_organization = λ r. refl;
  same_deletion = λ r. refl;
  next_version = λ r. refl;
}

at_version-true :
    (p : Prisma) (org id : String) (r : Violation)
    → r.id ≡ id
    → r.organization_id ≡ org
    → is_kept r.deleted_at ≡ true
    → at_version p.violation violation_columns org id r.version r ≡ true
unfolding at_version
at_version-true p org id r e f g = ground (arith, eq_iff r.id id, eq_iff r.organization_id org)

module _ (p : Prisma) where
  open p use {violation, outbox_event}

  abbrev pub violation_row : Db p → String → Option Violation
  violation_row db k = violation.row db.violations k

  module _ (call : Call) (ctx : RequestContext) (id : String) (v : Violation) (db : Db p)
      (tenant : require_organization_id ctx.organization_id ≡ ok ctx.organization_id)
      (there : violation_row db id ≡ some v) (same_tenant : v.organization_id ≡ ctx.organization_id)
      (live : is_kept v.deleted_at ≡ true) where
    found : require_violation p ctx id db ≡ ok v
    unfolding require_violation find_by_id
    found =
        rw
          (find_in_tenant_row violation violation_columns ctx.organization_id id db.violations v
            tenant there same_tenant live)
          refl

    hit : at_version violation violation_columns ctx.organization_id id v.version v ≡ true
    hit =
        at_version-true p ctx.organization_id id v (violation.key-row db.violations id v there)
          same_tenant live

    checks_pass :
        (input : UpdateViolationDto)
        → v.status ≡ validated
        → input.status ≡ some closed
        → input.assigned_to ≡ undefined
        → update_checks p ctx id input db ≡ ok v
    unfolding update_checks assert_assignee_in_organization truthy check_transition is_terminal
        can_transition
    checks_pass input now wanted nobody = rw (found, nobody, now, wanted) refl

    hit_at :
        (n : ℕ)
        → n ≡ v.version
        → at_version violation violation_columns ctx.organization_id id n v ≡ true
    hit_at n e =
        subst (λ n. at_version violation violation_columns ctx.organization_id id n v ≡ true)
          (sym e) hit

    abbrev written : ℕ → UpdateViolationData → violation.Content
    written n d =
        (optimistic_update violation violation_columns ctx.organization_id id n
          (write_violation call ctx d) db.violations).1

    row_after :
        (n : ℕ) (d : UpdateViolationData)
        → n ≡ v.version
        → violation.row (written n d) id ≡ some (write_violation call ctx d v)
    row_after n d e =
        row-reached violation violation_columns ctx.organization_id id n
          (write_violation call ctx d) (write_violation-IsVersionedWrite p call ctx d) db.violations
          id v there (hit_at n e)

    found_after :
        (n : ℕ) (d : UpdateViolationData)
        → n ≡ v.version
        → update p call ctx id n d db
          ≡ (some (write_violation call ctx d v), record db { violations = written n d })
    unfolding update
    found_after n d e =
        rw
          (update_found violation violation_columns ctx.organization_id id n
            (write_violation call ctx d) (write_violation-IsVersionedWrite p call ctx d)
            db.violations v there (hit_at n e))
          refl

    update_runs :
        (input : UpdateViolationDto)
        → update_checks p ctx id input db ≡ ok v
        → input.version ≡ v.version
        → update_violation p call ctx id input db db ≡ (
          ok (to_violation_response (write_violation call ctx (update_data input) v)),
          record db { violations = written input.version (update_data input) },
        )
    unfolding update_violation update_in_transaction
    update_runs input passed current =
        rw (passed, found_after input.version (update_data input) current) refl

    -- In a state that nothing changes between checks and transaction, and for a caller with an
    -- organization, `update` takes a VALIDATED violation of that organization which is not deleted
    -- to CLOSED (the request names that status, the current version and no assignee): it succeeds,
    -- the closing date stays as it was, and neither the outbox nor any other table is written.
    pub update_closes_silently :
        (input : UpdateViolationDto)
        → v.status ≡ validated
        → input.status ≡ some closed
        → input.assigned_to ≡ undefined
        → input.version ≡ v.version
        → let (result, db') = update_violation p call ctx id input db db in
          let v' = write_violation call ctx (update_data input) v in
          (result ≡ ok (to_violation_response v'))
          × (violation_row db' id ≡ some v')
          × (v'.status ≡ closed)
          × (v'.closed_at ≡ v.closed_at)
          × (db' ≡ record db { violations = db'.violations })
    unfolding write_violation update_data
    update_closes_silently input now wanted nobody current =
        let runs = update_runs input (checks_pass input now wanted nobody) current in
        let tables = ap (λ r. r.1) runs in
        (
          ap (λ r. r.0) runs,
          ap (λ (d : Db p). violation_row d id) tables
              ∙ row_after input.version (update_data input) current,
          rw wanted refl,
          refl,
          tables ∙ sym (ap (λ (d : Db p). record db { violations = d.violations }) tables),
        )

  publish_lem :
      {A : Type 0} (call : Call) (ctx : RequestContext) (name : DomainEventName) (payload : Payload)
      (a b : A) (db db' : Db p)
      → publish p call ctx name payload a db ≡ ok (b, db')
      → (b ≡ a)
        × (db' ≡ record db { outbox = db'.outbox })
        × (outbox_event.create (new_outbox_event call (event_of ctx name payload)) db.outbox
            ≡ some db'.outbox)
  unfolding publish write_outbox_event
  publish_lem call ctx name payload a b db db' h = ground arith

  new_event_row :
      (call : Call) (input : OutboxWriteInput) (t t' : outbox_event.Content)
      → outbox_event.create (new_outbox_event call input) t ≡ some t'
      → (outbox_event.row t call.event_id ≡ none)
        × (outbox_event.row t' call.event_id ≡ some (new_outbox_event call input))
  unfolding new_outbox_event
  new_event_row call input t t' made = (
    outbox_event.create_fresh (unfold new_outbox_event in new_outbox_event call input) t t' made,
    outbox_event.row-create (new_outbox_event call input) t t' made call.event_id
        ∙ rw ((eq_iff call.event_id call.event_id).1 refl) refl,
  )

  close_data_row :
      (call : Call) (ctx : RequestContext) (id : String) (input : CloseViolationBody)
      (r : Violation)
      → at_version violation violation_columns ctx.organization_id id input.version r ≡ true
      → let v = write_violation call ctx (close_data call input) r in
        (v.status ≡ closed)
        × (v.closed_at ≡ some call.now)
        × (v.resolution_summary ≡ some input.resolution_summary)
        × (v.version ≡ input.version + 1)
  unfolding write_violation close_data at_version
  close_data_row call ctx id input r hit = ground arith

  -- A closing that succeeds: the row had the expected version, it is CLOSED now and dated, and the
  -- outbox holds the ViolationClosed event of that row under a fresh identifier.
  pub close_publishes :
      (call : Call) (ctx : RequestContext) (id : String) (input : CloseViolationBody)
      (read db : Db p) (response : ViolationResponse)
      → (close_violation p call ctx id input read db).0 ≡ ok response
      → let db' = (close_violation p call ctx id input read db).1 in
        (v : Violation) × (violation_row db' id ≡ some v)
        × (response ≡ to_violation_response v)
        × (v.status ≡ closed)
        × (v.closed_at ≡ some call.now)
        × (v.resolution_summary ≡ some input.resolution_summary)
        × (v.version ≡ input.version + 1)
        × (outbox_event.row db.outbox call.event_id ≡ none)
        × (outbox_event.row db'.outbox call.event_id
            ≡ some (new_outbox_event call (event_of ctx violation_closed (closed_payload call v))))
  unfolding close_violation close_in_transaction update
  close_publishes call ctx id input read db response h =
      let (u, passed, e) =
        checked_ok (close_checks p ctx id read)
          (λ _. with_transaction (close_in_transaction p call ctx id input)) db h in
      let (db', done, f) =
        with_transaction_ok (close_in_transaction p call ctx id input) db
          (ap (λ r. r.0) (sym e) ∙ h) in
      let (v, found, rest) =
        or_stale_ok (update p call ctx id input.version (close_data call input) db) _ done in
      let (r, there, hit, same) =
        update_some violation violation_columns ctx.organization_id id input.version
          (write_violation call ctx (close_data call input))
          (write_violation-IsVersionedWrite p call ctx (close_data call input)) db.violations v
          found in
      let (answer, tables, made) =
        publish_lem call ctx violation_closed (closed_payload call v) (to_violation_response v)
          response (update p call ctx id input.version (close_data call input) db).1 db' rest in
      let (fresh, sent) =
        new_event_row call (event_of ctx violation_closed (closed_payload call v)) db.outbox
          db'.outbox made in
      let after = ap (λ r. r.1) (e ∙ f) in
      let (closing, dated, summary, version) = close_data_row call ctx id input r hit in
      let as_written =
        λ (P : Violation → Type 0) (x : P (write_violation call ctx (close_data call input) r)).
          subst P (sym same) x in
      (
        v,
        ap (λ (d : Db p). violation_row d id) (after ∙ tables)
            ∙ row-reached violation violation_columns ctx.organization_id id input.version
                (write_violation call ctx (close_data call input))
                (write_violation-IsVersionedWrite p call ctx (close_data call input)) db.violations
                id r there hit
            ∙ ap (λ x. some x) (sym same),
        answer,
        as_written (λ x. x.status ≡ closed) closing,
        as_written (λ x. x.closed_at ≡ some call.now) dated,
        as_written (λ x. x.resolution_summary ≡ some input.resolution_summary) summary,
        as_written (λ x. x.version ≡ input.version + 1) version,
        fresh,
        ap (λ (d : Db p). outbox_event.row d.outbox call.event_id) after ∙ sent,
      )
