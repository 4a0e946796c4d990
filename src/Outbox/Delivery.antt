-- ===== src/Outbox/Delivery.antt =====
-- What a tick of src/events/outbox/outbox-relay.worker.ts delivers.

use dpdpos_backend.Prelude.{
  ℕ, String, JsText, ◌≡◌, refl, ap, sym, subst, ◌∙◌, ◌⊎◌, inl, inr, Bool, true, false, ◌&&◌, Option,
  none, some, List, [], ◌∷◌, arith, any, str_eq, eq_iff, includes_string, Bool-cases, if◌then◌else◌,
}
use dpdpos_backend.Outbox.Events.{OutboxEvent, OutboxTable}
use dpdpos_backend.Outbox.Claims.{
  OutboxQuery, Clock, ClaimedOutboxEvent, to_claimed, lock_event, claimed_ids, lock_all,
  claimed_rows, claim_unpublished_outbox_events, publish_event, fail_event, some_equal,
  mark_outbox_published, mark_outbox_failed,
}
use dpdpos_backend.Outbox.Relay.{Faults, attempt, settle, ends_loop, relay_rows, relay_once}
use dpdpos_backend.Outbox.Locks.{taken_row}

module _ (outbox : OutboxTable) (query : OutboxQuery outbox)
    (publish_domain_event : ClaimedOutboxEvent → Option JsText) (faults : Faults) (now : ℕ)
    (token id : String)
    (accepted : (e : ClaimedOutboxEvent) → e.id ≡ id → publish_domain_event e ≡ none)
    (marked : (e : ClaimedOutboxEvent) → e.id ≡ id → faults.published_throws e ≡ none)
    (goes_on : (e : ClaimedOutboxEvent) → faults.failed_throws e ≡ false) where
  open outbox use {Content, row}

  abbrev IsPublished : Content → Type 0
  IsPublished t =
      (e : OutboxEvent) × (row t id ≡ some e) × (e.published_at ≡ some now) × (e.lock_token ≡ none)

  abbrev IsHeld : Content → Type 0
  IsHeld t = (e : OutboxEvent) × (row t id ≡ some e) × (e.lock_token ≡ some token)

  -- The loop comes to the row, with the token of the claim.
  abbrev is_listed : List ClaimedOutboxEvent → Bool
  is_listed es = any (λ (c : ClaimedOutboxEvent). str_eq c.id id && str_eq c.lock_token token) es

  row-marked_published :
      (i tok : String) (t : Content) (e : OutboxEvent)
      → row t id ≡ some e
      → row (mark_outbox_published outbox now (i ∷ []) (some tok) t) id
        ≡ some (if str_eq i id && some_equal e.lock_token tok then publish_event now e else e)
  unfolding mark_outbox_published publish_event
  row-marked_published i tok t e there =
      outbox.row-update_many (λ e. includes_string (i ∷ []) e.id && some_equal e.lock_token tok)
        (publish_event now) t (λ r. refl) id
      ∙ rw there (rw (outbox.key-row t id e there) (ground arith))

  row-marked_failed :
      (i tok : String) (message : JsText) (n : ℕ) (t : Content) (e : OutboxEvent)
      → row t id ≡ some e
      → row (mark_outbox_failed outbox now i tok message n t) id
        ≡ some
            (if str_eq i id && some_equal e.lock_token tok then fail_event now message n e else e)
  unfolding mark_outbox_failed fail_event
  row-marked_failed i tok message n t e there =
      outbox.row-update_many (λ e. str_eq e.id i && some_equal e.lock_token tok)
        (fail_event now message n) t (λ r. refl) id
      ∙ rw there (rw (outbox.key-row t id e there) (ground (arith, eq_iff id i, eq_iff i id)))

  -- The marks of other rows, and marks of a row that is not held, leave it as it is.
  settle-IsPublished :
      (c : ClaimedOutboxEvent) (r : Option JsText) (t : Content)
      → IsPublished t
      → IsPublished (settle outbox query publish_domain_event faults now c r t)
  unfolding settle
  settle-IsPublished c none t (e, there, sent, free) =
      (e, row-marked_published c.id c.lock_token t e there ∙ rw free (ground arith), sent, free)
  settle-IsPublished c (some message) t (e, there, sent, free) = (
    e,
    row-marked_failed c.id c.lock_token message c.attempts t e there ∙ rw free (ground arith),
    sent,
    free,
  )

  lock_matches :
      (c : ClaimedOutboxEvent) (o : Option String)
      → o ≡ some token
      → some_equal o c.lock_token ≡ str_eq c.lock_token token
  lock_matches c o held =
      rw held (ground (arith, eq_iff token c.lock_token, eq_iff c.lock_token token))

  settle_other :
      (c : ClaimedOutboxEvent) (r : Option JsText) (t : Content)
      → (str_eq c.id id && str_eq c.lock_token token) ≡ false
      → IsHeld t
      → IsHeld (settle outbox query publish_domain_event faults now c r t)
  unfolding settle
  settle_other c none t miss (e, there, held) = (
    e,
    row-marked_published c.id c.lock_token t e there
        ∙ rw (lock_matches c e.lock_token held, miss) refl,
    held,
  )
  settle_other c (some message) t miss (e, there, held) = (
    e,
    row-marked_failed c.id c.lock_token message c.attempts t e there
        ∙ rw (lock_matches c e.lock_token held, miss) refl,
    held,
  )

  settle_hit :
      (c : ClaimedOutboxEvent) (t : Content)
      → (str_eq c.id id && str_eq c.lock_token token) ≡ true
      → IsHeld t
      → IsPublished (settle outbox query publish_domain_event faults now c none t)
  unfolding settle publish_event
  settle_hit c t hit (e, there, held) = (
    unfold publish_event in publish_event now e,
    row-marked_published c.id c.lock_token t e there
        ∙ rw (lock_matches c e.lock_token held, hit) refl,
    refl,
    refl,
  )

  delivered :
      (c : ClaimedOutboxEvent)
      → c.id ≡ id
      → attempt outbox query publish_domain_event faults c ≡ none
  unfolding attempt
  delivered c e =
      ap
        (λ o. elim o as (λ _. Option JsText) [
          | none ↦ faults.published_throws c
          | some message ↦ some message
        ])
        (accepted c e)
      ∙ marked c e

  never_ends :
      (c : ClaimedOutboxEvent) (r : Option JsText)
      → ends_loop outbox query publish_domain_event faults c r ≡ false
  never_ends c none = refl
  never_ends c (some message) = goes_on c

  -- After the loop a row is published that was published before it, or held and still to come.
  relay_rows-IsPublished :
      (es : List ClaimedOutboxEvent) (t : Content)
      → IsPublished t ⊎ (IsHeld t × (is_listed es ≡ true))
      → IsPublished (relay_rows outbox query publish_domain_event faults now es t)
  unfolding relay_rows
  relay_rows-IsPublished [] t (inl done) = done
  relay_rows-IsPublished [] t (inr (held, listed)) = cc
  relay_rows-IsPublished (c ∷ es) t (inl done) =
      let r = attempt outbox query publish_domain_event faults c in
      rw (never_ends c r) (
        relay_rows-IsPublished es (settle outbox query publish_domain_event faults now c r t)
          (inl (settle-IsPublished c r t done)))
  relay_rows-IsPublished (c ∷ es) t (inr (held, listed)) =
      let r = attempt outbox query publish_domain_event faults c in
      rw (never_ends c r) (
        relay_rows-IsPublished es (settle outbox query publish_domain_event faults now c r t)
          (elim (Bool-cases (str_eq c.id id && str_eq c.lock_token token)) [
            | inl hit ↦
                inl (rw (delivered c (ground (arith, eq_iff c.id id))) (settle_hit c t hit held))
            | inr miss ↦ inr (settle_other c r t miss held, ground arith)
          ]))

  listed-claimed_rows :
      (ids : List String) (t : Content)
      → IsHeld t
      → includes_string ids id ≡ true
      → is_listed (claimed_rows outbox query token ids t) ≡ true
  unfolding claimed_rows to_claimed
  listed-claimed_rows [] t held h = cc
  listed-claimed_rows (i ∷ ids) t (e, there, held) h = ground (
    arith,
    there,
    eq_iff i id,
    eq_iff token token,
    eq_iff e.id id,
    outbox.key-row t id e there,
    listed-claimed_rows ids t (e, there, held),
  )

  -- A tick that is not held up by another one and whose claim goes through publishes every row that
  -- it claims and whose event the bus takes and the database then marks, whatever happens to the other
  -- rows, as long as no mark of a failed row throws.
  pub relay_delivers :
      (db_now : ℕ) (org : Option String) (t : Content)
      → faults.claim_throws ≡ false
      → includes_string
          (claimed_ids outbox query (record { app_now = now; db_now = db_now }) 50 org t)
          id
        ≡ true
      → IsPublished (
          relay_once outbox query publish_domain_event faults false
            (record { app_now = now; db_now = db_now })
            token
            org
            t)
  unfolding relay_once claim_unpublished_outbox_events lock_event
  relay_delivers db_now org t sound taken =
      let clock : Clock = record { app_now = now; db_now = db_now } in
      let ids = claimed_ids outbox query clock 50 org t in
      let t' = lock_all outbox query db_now token ids t in
      let (e, there, chosen, after) = taken_row outbox query clock token 50 org t id taken in
      let held : IsHeld t' = (unfold lock_event in lock_event db_now token e, after, refl) in
      let relayed =
        relay_rows outbox query publish_domain_event faults now
          (claimed_rows outbox query token ids t') t' in
      subst (λ b. IsPublished (if b then t else relayed)) (sym sound)
        (relay_rows-IsPublished (claimed_rows outbox query token ids t') t'
          (inr (held, listed-claimed_rows ids t' held taken)))
