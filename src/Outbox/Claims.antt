-- ===== src/Outbox/Claims.antt =====
-- src/events/outbox/outbox.repository.ts: claiming, publishing and failing of outbox rows.

use dpdpos_backend.Prelude.{
  ℕ, ◌+◌, ◌-◌, ◌*◌, ◌^◌, ◌≤◌, min, String, JsText, ◌≡◌, Bool, true, false, not, ◌&&◌, Option, none,
  some, List, [], ◌∷◌, length, take, leb, ltb, str_eq, is_some, includes_string,
}
use dpdpos_backend.Outbox.Events.{OutboxEvent, OutboxTable, DomainEventName, Payload}

-- The SELECT ... FOR UPDATE SKIP LOCKED of a claim: the identifiers that the database chooses. It
-- chooses rows that meet the condition, each at most once and no more than the limit; which ones,
-- where there are more or where another session holds a row, is the database's choice.
pub record OutboxQuery (outbox : OutboxTable) : Type 0 where
  pub candidates : (OutboxEvent → Bool) → ℕ → outbox.Content → List String
  pub mem-candidates :
      (where' : OutboxEvent → Bool) (limit : ℕ) (t : outbox.Content) (id : String)
      → includes_string (candidates where' limit t) id ≡ true
      → (e : OutboxEvent) × (outbox.row t id ≡ some e) × (where' e ≡ true)
  pub length-candidates :
      (where' : OutboxEvent → Bool) (limit : ℕ) (t : outbox.Content)
      → length (candidates where' limit t) ≤ limit

abbrev pub lock_stale_ms : ℕ
lock_stale_ms = 5 * 60 * 1000

abbrev pub max_attempts : ℕ
max_attempts = 10

abbrev is_null_or : (ℕ → Bool) → Option ℕ → Bool
is_null_or test none = true
is_null_or test (some t) = test t

abbrev of_organization : Option String → String → Bool
of_organization none org = true
of_organization (some o) org = str_eq org o

-- What a claim takes from the two clocks: `Date.now()` of the application and `NOW()` of the database.
pub record Clock : Type 0 where
  pub app_now : ℕ
  pub db_now : ℕ

-- The WHERE of a claim, for one organization or for all. The application measures how old a lock is,
-- the database when a row is available.
unfoldable pub is_claimable : Clock → Option String → OutboxEvent → Bool
is_claimable clock org e =
    not (is_some e.published_at)
    && ltb e.attempts max_attempts
    && is_null_or (λ t. leb t clock.db_now) e.available_at
    && is_null_or (λ t. ltb t (clock.app_now - lock_stale_ms)) e.locked_at
    && of_organization org e.organization_id

-- The SET of a claim, at the time of the database.
unfoldable pub lock_event : ℕ → String → OutboxEvent → OutboxEvent
lock_event now token e = record e {
  locked_at = some now;
  lock_token = some token;
  attempts = e.attempts + 1;
}

pub record ClaimedOutboxEvent : Type 0 where
  pub id : String
  pub organization_id : String
  pub event_type : DomainEventName
  pub payload : Payload
  pub actor_user_id : Option String
  pub correlation_id : Option String
  pub created_at : ℕ
  pub attempts : ℕ
  pub lock_token : String

-- A row that a claim returns.
unfoldable pub to_claimed : String → OutboxEvent → ClaimedOutboxEvent
to_claimed token e = record {
  id = e.id;
  organization_id = e.organization_id;
  event_type = e.event_type;
  payload = e.payload;
  actor_user_id = e.actor_user_id;
  correlation_id = e.correlation_id;
  created_at = e.created_at;
  attempts = e.attempts;
  lock_token = token;
}

abbrev pub some_equal : Option String → String → Bool
some_equal none s = false
some_equal (some t) s = str_eq t s

abbrev pub holds_lock : Option String → OutboxEvent → Bool
holds_lock none e = true
holds_lock (some token) e = some_equal e.lock_token token

-- The changes of a publication and of a failure.
unfoldable pub publish_event : ℕ → OutboxEvent → OutboxEvent
publish_event now e = record e {
  published_at = some now;
  locked_at = none;
  lock_token = none;
  last_error = none;
  available_at = none;
}

unfoldable pub backoff_seconds : ℕ → ℕ
backoff_seconds attempts = min 300 (2 ^ min attempts 8)

unfoldable pub fail_event : ℕ → JsText → ℕ → OutboxEvent → OutboxEvent
fail_event now message attempts e = record e {
  locked_at = none;
  lock_token = none;
  last_error = some (take 2000 message);
  available_at = some (now + backoff_seconds attempts * 1000);
}

module _ (outbox : OutboxTable) (query : OutboxQuery outbox) where
  open outbox use {Content, row, update_many}

  -- The rows of the identifiers that are there, as a claim returns them.
  unfoldable pub claimed_rows : String → List String → Content → List ClaimedOutboxEvent
  claimed_rows token [] t = []
  claimed_rows token (id ∷ ids) t =
      let rest = claimed_rows token ids t in
      elim (row t id) [ none ↦ rest | some e ↦ to_claimed token e ∷ rest ]

  unfoldable pub claimed_ids : Clock → ℕ → Option String → Content → List String
  claimed_ids clock limit org t = query.candidates (is_claimable clock org) limit t

  unfoldable pub lock_all : ℕ → String → List String → Content → Content
  lock_all now token ids t =
      (update_many (λ e. includes_string ids e.id) (lock_event now token) t).1

  -- `claimUnpublishedOutboxEvents`, with the lock token that it makes.
  unfoldable pub claim_unpublished_outbox_events :
      Clock → String → ℕ → Option String → Content → List ClaimedOutboxEvent × Content
  claim_unpublished_outbox_events clock token limit org t =
      let ids = claimed_ids clock limit org t in
      let t' = lock_all clock.db_now token ids t in (claimed_rows token ids t', t')

module _ (outbox : OutboxTable) where
  open outbox use {Content, update_many}

  -- A publication writes the rows of a list, those whose lock is still held under the token where
  -- one is given; a failure writes the one row whose lock is held under the token.
  unfoldable pub mark_outbox_published : ℕ → List String → Option String → Content → Content
  mark_outbox_published now [] token t = t
  mark_outbox_published now (id ∷ ids) token t =
      (update_many (λ e. includes_string (id ∷ ids) e.id && holds_lock token e) (publish_event now)
        t).1

  unfoldable pub mark_outbox_failed : ℕ → String → String → JsText → ℕ → Content → Content
  mark_outbox_failed now id token message attempts t =
      (update_many (λ e. str_eq e.id id && some_equal e.lock_token token)
        (fail_event now message attempts) t).1
