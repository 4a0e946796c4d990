-- ===== src/Outbox/Locks.antt =====
-- Locks of the outbox rows of src/events/outbox/outbox.repository.ts: a claim, and what follows it.

use dpdpos_backend.Prelude.{
  ℕ, ◌+◌, ◌≤◌, ◌<◌, String, ◌≡◌, refl, ◌∙◌, true, false, Option, none, some, List, arith,
  includes_string, if◌then◌else◌,
}
use dpdpos_backend.Outbox.Events.{OutboxEvent, OutboxTable}
use dpdpos_backend.Outbox.Claims.{
  Clock, OutboxQuery, is_claimable, lock_event, claimed_ids, lock_all,
}

pub claimable_facts :
    (clock : Clock) (org : Option String) (e : OutboxEvent)
    → is_claimable clock org e ≡ true
    → (e.published_at ≡ none) × (e.attempts < 10)
unfolding is_claimable
claimable_facts clock org e h = ground arith

-- A row with a lock that is not older than five minutes by the clock of the application.
pub lock_not_stale :
    (locked : ℕ) (clock : Clock) (org : Option String) (e : OutboxEvent)
    → e.locked_at ≡ some locked
    → clock.app_now ≤ locked + 300000
    → is_claimable clock org e ≡ false
unfolding is_claimable
lock_not_stale locked clock org e held h = ground arith

same_id-lock_event :
    (now : ℕ) (token : String) (e : OutboxEvent) → (lock_event now token e).id ≡ e.id
unfolding lock_event
same_id-lock_event now token e = refl

module _ (outbox : OutboxTable) (query : OutboxQuery outbox) where
  open outbox use {Content, row}

  -- The row of an identifier after a claim.
  row-lock_all :
      (now : ℕ) (token : String) (ids : List String) (t : Content) (k : String) (e : OutboxEvent)
      → row t k ≡ some e
      → row (lock_all outbox query now token ids t) k
        ≡ some (if includes_string ids k then lock_event now token e else e)
  unfolding lock_all
  row-lock_all now token ids t k e there =
      outbox.row-update_many (λ e. includes_string ids e.id) (lock_event now token) t
        (same_id-lock_event now token) k
      ∙ rw (there, outbox.key-row t k e there) refl

  -- A row that a claim took, after the claim.
  pub taken_row :
      (clock : Clock) (token : String) (limit : ℕ) (org : Option String) (t : Content) (id : String)
      → includes_string (claimed_ids outbox query clock limit org t) id ≡ true
      → (e : OutboxEvent) × (row t id ≡ some e)
        × (is_claimable clock org e ≡ true)
        × (row
              (lock_all outbox query clock.db_now token
                (claimed_ids outbox query clock limit org t)
                t)
              id
            ≡ some (lock_event clock.db_now token e))
  unfolding claimed_ids
  taken_row clock token limit org t id taken =
      let (e, there, chosen) = query.mem-candidates (is_claimable clock org) limit t id taken in
      (
        e,
        there,
        chosen,
        row-lock_all clock.db_now token (claimed_ids outbox query clock limit org t) t id e there
            ∙ rw taken refl,
      )
