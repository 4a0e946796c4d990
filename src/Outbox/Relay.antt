-- ===== src/Outbox/Relay.antt =====
-- src/events/outbox/outbox-relay.worker.ts: one tick of the relay. The event bus is a parameter: for a
-- claimed event it succeeds, or fails with a message. So is which calls of the database throw in the
-- tick; a call that throws has written nothing. One tick takes one time for its marks.
use dpdpos_backend.Prelude.{
  ℕ, String, JsText, Bool, true, false, Option, none, some, List, [], ◌∷◌, if◌then◌else◌,
}
use dpdpos_backend.Outbox.Events.{OutboxTable}
use dpdpos_backend.Outbox.Claims.{
  OutboxQuery, Clock, ClaimedOutboxEvent, claim_unpublished_outbox_events, mark_outbox_published,
  mark_outbox_failed,
}

-- The claim throws; the mark of a published event throws with a message; the mark of a failed one throws.
pub record Faults : Type 0 where
  pub claim_throws : Bool
  pub published_throws : ClaimedOutboxEvent → Option JsText
  pub failed_throws : ClaimedOutboxEvent → Bool

module _ (outbox : OutboxTable) (query : OutboxQuery outbox)
    (publish_domain_event : ClaimedOutboxEvent → Option JsText) (faults : Faults) where
  open outbox use {Content}

  -- The message that the `try` for an event ends with, if it does.
  unfoldable pub attempt : ClaimedOutboxEvent → Option JsText
  attempt e = elim (publish_domain_event e) as (λ _. Option JsText) [
    | none ↦ faults.published_throws e
    | some message ↦ some message
  ]

  -- What an attempt that succeeded, or failed with a message, does to the row.
  unfoldable pub settle : ℕ → ClaimedOutboxEvent → Option JsText → Content → Content
  settle now e none t = mark_outbox_published outbox now (e.id ∷ []) (some e.lock_token) t
  settle now e (some message) t =
      mark_outbox_failed outbox now e.id e.lock_token message e.attempts t

  -- The mark in the `catch` throws, which ends the loop.
  abbrev pub ends_loop : ClaimedOutboxEvent → Option JsText → Bool
  ends_loop e none = false
  ends_loop e (some message) = faults.failed_throws e

  -- The loop over the claimed rows.
  unfoldable pub relay_rows : ℕ → List ClaimedOutboxEvent → Content → Content
  unfolding settle
  relay_rows now [] t = t
  relay_rows now (e ∷ es) t =
      let rest = relay_rows now es (settle now e (attempt e) t) in
      if ends_loop e (attempt e) then t else rest

  -- A tick while another one runs does nothing.
  unfoldable pub relay_once : Bool → Clock → String → Option String → Content → Content
  relay_once true clock token org t = t
  relay_once false clock token org t =
      let (rows, t') = claim_unpublished_outbox_events outbox query clock token 50 org t in
      let relayed = relay_rows clock.app_now rows t' in if faults.claim_throws then t else relayed
