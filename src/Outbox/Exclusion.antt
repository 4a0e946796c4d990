-- ===== src/Outbox/Exclusion.antt =====
-- How long a claim of src/events/outbox/outbox.repository.ts keeps a row to itself.

use dpdpos_backend.Prelude.{
  ℕ, ◌+◌, ◌≤◌, String, ◌≡◌, refl, sym, ap, subst, ◌∙◌, inl, inr, Bool, true, false, not, ◌&&◌,
  Option, none, some, List, [], ◌∷◌, arith, any, leb, eq_iff, str_eq, includes_string, Bool-cases,
}
use dpdpos_backend.Outbox.Events.{
  OutboxEvent, OutboxTable, write_outbox_event, new_outbox_event, or_throw,
}
use dpdpos_backend.Outbox.Claims.{
  OutboxQuery, Clock, lock_event, claimed_ids, lock_all, claim_unpublished_outbox_events,
  publish_event, fail_event, some_equal, mark_outbox_published, mark_outbox_failed,
}
use dpdpos_backend.Outbox.Locks.{lock_not_stale, taken_row}
use dpdpos_backend.Outbox.Attempts.{
  OutboxOp, write, claim, mark_published, mark_failed, committed, apply, apply_all, claimable_row,
}

module _ (outbox : OutboxTable) (query : OutboxQuery outbox) (locked : ℕ) (token id : String) where
  open outbox use {Content, row}

  -- A mark of the row, under the token of the claim or under none.
  abbrev pub releases : OutboxOp outbox query → Bool
  releases (mark_published now ids none) = includes_string ids id
  releases (mark_published now ids (some t)) = includes_string ids id && str_eq t token
  releases (mark_failed now i t message attempts) = str_eq i id && str_eq t token
  releases _ = false

  -- A claim that looks more than five minutes after the lock.
  abbrev pub is_late : OutboxOp outbox query → Bool
  is_late (claim clock t limit org) = not (leb clock.app_now (locked + 300000))
  is_late _ = false

  abbrev IsLocked : Content → Type 0
  IsLocked t =
      (e : OutboxEvent) × (row t id ≡ some e)
      × (e.locked_at ≡ some locked)
      × (e.lock_token ≡ some token)

  not_claimed :
      (clock : Clock) (limit : ℕ) (org : Option String) (t : Content)
      → clock.app_now ≤ locked + 300000
      → IsLocked t
      → includes_string (claimed_ids outbox query clock limit org t) id ≡ false
  unfolding claimed_ids
  not_claimed clock limit org t soon (e, there, held, own) =
      elim (Bool-cases (includes_string (claimed_ids outbox query clock limit org t) id)) [
        | inl again ↦ cc (
          lock_not_stale locked clock org e held soon,
          claimable_row outbox query clock limit org t id e there again,
        )
        | inr free ↦ free
      ]

  -- A write to rows among which this one is not.
  missed :
      (hit : OutboxEvent → Bool) (f : OutboxEvent → OutboxEvent) (t : Content)
      → ((e : OutboxEvent) → (f e).id ≡ e.id)
      → ((e : OutboxEvent) → e.id ≡ id → e.lock_token ≡ some token → hit e ≡ false)
      → IsLocked t
      → IsLocked (outbox.update_many hit f t).1
  missed hit f t same miss (e, there, held, own) = (
    e,
    outbox.row-update_many hit f t same id
        ∙ rw there (rw (miss e (outbox.key-row t id e there) own) refl),
    held,
    own,
  )

  written-IsLocked :
      (new : OutboxEvent) (t : Content) (made : Option Content)
      → outbox.create new t ≡ made
      → IsLocked t
      → IsLocked (committed outbox query t (or_throw made))
  written-IsLocked new t none h l = l
  written-IsLocked new t (some t') h (e, there, held, own) = (
    e,
    ground (
      arith,
      eq_iff new.id id,
      outbox.row-create new t t' h id,
      outbox.create_fresh new t t' h,
      ap (row t) {x = new.id} {y = id},
    ),
    held,
    own,
  )

  apply-IsLocked :
      (op : OutboxOp outbox query) (t : Content)
      → releases op ≡ false
      → is_late op ≡ false
      → IsLocked t
      → IsLocked (apply outbox query op t)
  unfolding apply write_outbox_event new_outbox_event claim_unpublished_outbox_events lock_all
      lock_event mark_outbox_published publish_event mark_outbox_failed fail_event
  apply-IsLocked (write call input) t keeps soon l =
      written-IsLocked (unfold new_outbox_event in new_outbox_event call input) t _ refl l
  apply-IsLocked (claim clock tok limit org) t keeps soon l =
      missed _ (unfold lock_event in lock_event clock.db_now tok) t (λ e. refl)
        (λ e at own.
          subst (λ i. includes_string (claimed_ids outbox query clock limit org t) i ≡ false)
            (sym at) (not_claimed clock limit org t (ground arith) l))
        l
  apply-IsLocked (mark_published now [] tok) t keeps soon l = l
  apply-IsLocked (mark_published now (i ∷ ids) none) t keeps soon l =
      missed _ (unfold publish_event in publish_event now) t (λ e. refl)
        (λ e at own.
          subst (λ k. (includes_string (i ∷ ids) k && true) ≡ false) (sym at) (ground arith))
        l
  apply-IsLocked (mark_published now (i ∷ ids) (some tok)) t keeps soon l =
      missed _ (unfold publish_event in publish_event now) t (λ e. refl)
        (λ e at own.
          subst (λ k. (includes_string (i ∷ ids) k && some_equal e.lock_token tok) ≡ false) (sym at)
            (subst (λ o. (includes_string (i ∷ ids) id && some_equal o tok) ≡ false) (sym own)
              (ground (arith, eq_iff tok token, eq_iff token tok))))
        l
  apply-IsLocked (mark_failed now i tok message attempts) t keeps soon l =
      missed _ (unfold fail_event in fail_event now message attempts) t (λ e. refl)
        (λ e at own.
          rw (at, own)
            (ground (arith, eq_iff tok token, eq_iff token tok, eq_iff i id, eq_iff id i)))
        l

  apply_all-IsLocked :
      (ops : List (OutboxOp outbox query)) (t : Content)
      → any releases ops ≡ false
      → any is_late ops ≡ false
      → IsLocked t
      → IsLocked (apply_all outbox query ops t)
  unfolding apply_all
  apply_all-IsLocked [] t keeps soon l = l
  apply_all-IsLocked (op ∷ ops) t keeps soon l =
      apply_all-IsLocked ops (apply outbox query op t) (ground arith) (ground arith)
        (apply-IsLocked op t (ground arith) (ground arith) l)

module _ (outbox : OutboxTable) (query : OutboxQuery outbox) where
  open outbox use {Content}

  -- A row that a claim took is in no claim that looks, by the clock of the application, within five
  -- minutes of the time at which the database locked the row: after any sequence of writes, marks and
  -- claims that look within the same five minutes, as long as none of them is a mark of that row under
  -- the token of the claim or under no token, which releases the lock.
  pub no_double_claim :
      (clock later : Clock) (token : String) (limit limit' : ℕ) (org org' : Option String)
      (t : Content) (id : String) (ops : List (OutboxOp outbox query))
      → includes_string (claimed_ids outbox query clock limit org t) id ≡ true
      → any (releases outbox query clock.db_now token id) ops ≡ false
      → any (is_late outbox query clock.db_now token id) ops ≡ false
      → later.app_now ≤ clock.db_now + 300000
      → includes_string
          (claimed_ids outbox query later limit' org' (
            apply_all outbox query ops
              (claim_unpublished_outbox_events outbox query clock token limit org t).1))
          id
        ≡ false
  unfolding claim_unpublished_outbox_events lock_event
  no_double_claim clock later token limit limit' org org' t id ops taken keeps soon near =
      let (e, there, chosen, after) = taken_row outbox query clock token limit org t id taken in
      not_claimed outbox query clock.db_now token id later limit' org' _ near (
        apply_all-IsLocked outbox query clock.db_now token id ops
          (lock_all outbox query clock.db_now token (claimed_ids outbox query clock limit org t) t)
          keeps soon (unfold lock_event in lock_event clock.db_now token e, after, refl, refl))
