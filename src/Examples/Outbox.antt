-- ===== src/Examples/Outbox.antt =====
-- An outbox of two rows at src/events/outbox: a claim, a tick of the relay and a run.
use dpdpos_backend.Prelude.{
  ◌≤◌, JsText, ◌≡◌, refl, literal, false, none, some, Option, List, [], ◌∷◌, arith, includes_string,
  subst, sym, Memᴰ,
}
use dpdpos_backend.Database.Rows.{get, Memᴰ-get, write_all, write_one, count_writes}
use dpdpos_backend.Database.ListTable.{list_table}
use dpdpos_backend.Outbox.Events.{
  OutboxEvent, OutboxTable, violation_created, violation_closed, outbox_key, outbox_clash,
}
use dpdpos_backend.Outbox.Claims.{
  Clock, ClaimedOutboxEvent, is_claimable, claimed_ids, lock_all, claim_unpublished_outbox_events,
  lock_event, mark_outbox_failed, fail_event, backoff_seconds,
}
use dpdpos_backend.Outbox.ListQuery.{first_rows}
use dpdpos_backend.Outbox.Relay.{Faults, relay_once}
use dpdpos_backend.Outbox.Exclusion.{no_double_claim}
use dpdpos_backend.Outbox.Delivery.{relay_delivers}
use dpdpos_backend.Outbox.Attempts.{
  OutboxOp, claim, mark_failed, AllBounded, attempts_bounded, published_never_claimed, apply_all,
  apply,
}

abbrev outbox : OutboxTable
outbox = list_table outbox_key outbox_clash

abbrev waiting : OutboxEvent
waiting = record {
  id = "event-1";
  organization_id = "org-1";
  event_type = violation_created;
  payload = [];
  actor_user_id = some "user-1";
  correlation_id = none;
  created_at = 5;
  published_at = none;
  attempts = 3;
  locked_at = none;
  lock_token = none;
  available_at = some 900;
  last_error = none;
}

abbrev sent : OutboxEvent
sent = record waiting { id = "event-0"; event_type = violation_closed; published_at = some 700 }

abbrev rows : outbox.Content
unfolding list_table
rows = (waiting ∷ sent ∷ [], ((refl, tt), (tt, tt)))

-- The clock of the application is two milliseconds behind that of the database.
abbrev tick : Clock
tick = record { app_now = 998; db_now = 1000 }

abbrev next_tick : Clock
next_tick = record { app_now = 5998; db_now = 6000 }

-- Between the two claims another worker claims, and marks a row that it does not hold.
abbrev others : List (OutboxOp outbox first_rows)
others =
    claim next_tick "token-2" 50 none ∷ mark_failed 1100 "event-1" "token-2" (literal "late") 4 ∷ []

no_double_claim_example :
    includes_string
      (claimed_ids outbox first_rows next_tick 10 (some "org-1") (
        apply_all outbox first_rows others
          (claim_unpublished_outbox_events outbox first_rows tick "token-1" 50 none rows).1))
      "event-1"
    ≡ false
unfolding claimed_ids first_rows is_claimable
no_double_claim_example =
    no_double_claim outbox first_rows tick next_tick "token-1" 50 10 none (some "org-1") rows
      "event-1" others refl refl refl (omega arith)

abbrev bus : ClaimedOutboxEvent → Option JsText
bus e = none

abbrev no_faults : Faults
no_faults = record {
  claim_throws = false;
  published_throws = λ e. none;
  failed_throws = λ e. false;
}

relay_delivers_example :
    (e : OutboxEvent) × (outbox.row
        (relay_once outbox first_rows bus no_faults false tick "token-1" none rows)
        "event-1"
      ≡ some e)
    × (e.published_at ≡ some 998)
    × (e.lock_token ≡ none)
unfolding claimed_ids first_rows is_claimable
relay_delivers_example =
    relay_delivers outbox first_rows bus no_faults 998 "token-1" "event-1" (λ e same. refl)
      (λ e same. refl) (λ e. refl) 1000 none rows refl refl

abbrev day : List (OutboxOp outbox first_rows)
day =
    claim tick "token-1" 50 none ∷ mark_failed 1100 "event-1" "token-1" (literal "no broker") 4 ∷ []

rows-AllBounded : AllBounded outbox first_rows rows
unfolding list_table
rows-AllBounded k e h = elim (Memᴰ-get outbox_key (waiting ∷ sent ∷ []) k e h) [
  | Memᴰ.head same ↦ subst (λ (x : OutboxEvent). x.attempts ≤ 10) (sym same) (omega arith)
  | Memᴰ.tail m ↦ elim m [
    | Memᴰ.head same ↦ subst (λ (x : OutboxEvent). x.attempts ≤ 10) (sym same) (omega arith)
    | Memᴰ.tail m' ↦ elim m' [ ]
  ]
]

-- The fourth attempt failed: the next one is due 16 seconds later.
abbrev failed_again : OutboxEvent
failed_again = record waiting {
  attempts = 4;
  available_at = some 17100;
  last_error = some (literal "no broker");
}

day_test : outbox.row (apply_all outbox first_rows day rows) "event-1" ≡ some failed_again
unfolding apply_all apply list_table get claim_unpublished_outbox_events claimed_ids first_rows
    is_claimable lock_all lock_event mark_outbox_failed fail_event backoff_seconds write_all
    write_one count_writes literal
day_test = refl

attempts_bounded_example : failed_again.attempts ≤ 10
attempts_bounded_example =
    attempts_bounded outbox first_rows day rows rows-AllBounded "event-1" failed_again day_test

published_never_claimed_example :
    includes_string
      (claimed_ids outbox first_rows next_tick 50 none (apply_all outbox first_rows day rows))
      "event-0"
    ≡ false
unfolding list_table get
published_never_claimed_example =
    published_never_claimed outbox first_rows day rows "event-0" sent next_tick 50 none refl refl
