-- ===== src/Outbox/Attempts.antt =====
-- Runs of the outbox of src/events/outbox: any order of writers, claims and marks.
use mathlib.Core.Option
use mathlib.Core.Option.{some-injective}
use dpdpos_backend.Prelude.{
  ℕ, ◌≤◌, String, JsText, ◌≡◌, refl, sym, ap, subst, ◌∙◌, inl, inr, Bool, true, false, Option, none,
  some, List, [], ◌∷◌, arith, eq_iff, str_eq, is_some, includes_string, ◌&&◌, Bool-cases,
  Option-cases, if◌then◌else◌,
}
use dpdpos_backend.Shared.Errors.{Result, ok, err}
use dpdpos_backend.Shared.Context.{Call}
use dpdpos_backend.Outbox.Events.{
  OutboxEvent, OutboxTable, OutboxWriteInput, write_outbox_event, new_outbox_event, or_throw,
}
use dpdpos_backend.Outbox.Claims.{
  OutboxQuery, Clock, is_claimable, lock_event, claimed_ids, lock_all,
  claim_unpublished_outbox_events, publish_event, fail_event, some_equal, holds_lock,
  mark_outbox_published, mark_outbox_failed,
}
use dpdpos_backend.Outbox.Locks.{claimable_facts}

module _ (outbox : OutboxTable) (query : OutboxQuery outbox) where
  open outbox use {Content, row}

  -- What a service, the relay or a test may do to the table.
  pub data OutboxOp : Type 0 where
    write : Call → OutboxWriteInput → OutboxOp
    claim : Clock → String → ℕ → Option String → OutboxOp
    mark_published : ℕ → List String → Option String → OutboxOp
    mark_failed : ℕ → String → String → JsText → ℕ → OutboxOp

  abbrev pub committed : Content → Result Content → Content
  committed t (ok t') = t'
  committed t (err e) = t

  unfoldable pub apply : OutboxOp → Content → Content
  apply (write call input) t = committed t (write_outbox_event outbox call input t)
  apply (claim clock token limit org) t =
      (claim_unpublished_outbox_events outbox query clock token limit org t).1
  apply (mark_published now ids token) t = mark_outbox_published outbox now ids token t
  apply (mark_failed now id token message attempts) t =
      mark_outbox_failed outbox now id token message attempts t

  unfoldable pub apply_all : List OutboxOp → Content → Content
  apply_all [] t = t
  apply_all (op ∷ ops) t = apply_all ops (apply op t)

  abbrev Bounded : OutboxEvent → Type 0
  Bounded e = e.attempts ≤ 10

  abbrev pub AllBounded : Content → Type 0
  AllBounded t = (k : String) (e : OutboxEvent) → row t k ≡ some e → Bounded e

  -- A write to the rows that meet a condition keeps a property of every row, if it does so for them.
  update_keeps :
      (P : OutboxEvent → Type 0) (hit : OutboxEvent → Bool) (f : OutboxEvent → OutboxEvent)
      (t : Content)
      → ((e : OutboxEvent) → (f e).id ≡ e.id)
      → ((k : String) (e : OutboxEvent) → row t k ≡ some e → hit e ≡ true → P (f e))
      → ((k : String) (e : OutboxEvent) → row t k ≡ some e → P e)
      → (k : String) (e' : OutboxEvent) → row (outbox.update_many hit f t).1 k ≡ some e'
      → P e'
  update_keeps P hit f t same written kept k e' h = elim (Option-cases (row t k)) [
    | inl absent ↦ cc (
      outbox.row-update_many hit f t same k,
      ap (Option.map (λ r. if hit r then f r else r)) absent,
      h,
    )
    | inr (e, there) ↦
        let e'-is : (if hit e then f e else e) ≡ e' = some-injective _ _ (
          sym (ap (Option.map (λ r. if hit r then f r else r)) there)
          ∙ sym (outbox.row-update_many hit f t same k)
          ∙ h) in
        elim (Bool-cases (hit e)) [
          | inl yes' ↦
              subst P (sym (ap (λ b. if b then f e else e) yes') ∙ e'-is) (written k e there yes')
          | inr no' ↦ subst P (sym (ap (λ b. if b then f e else e) no') ∙ e'-is) (kept k e there)
        ]
  ]

  written-AllBounded :
      (e : OutboxEvent) (t : Content) (made : Option Content)
      → outbox.create e t ≡ made
      → Bounded e
      → AllBounded t
      → AllBounded (committed t (or_throw made))
  written-AllBounded new t none h fresh all = all
  written-AllBounded new t (some t') h fresh all =
      λ k e there. ground (arith, outbox.row-create new t t' h k, all k e)

  pub claimable_row :
      (clock : Clock) (limit : ℕ) (org : Option String) (t : Content) (k : String) (e : OutboxEvent)
      → row t k ≡ some e
      → includes_string (query.candidates (is_claimable clock org) limit t) k ≡ true
      → is_claimable clock org e ≡ true
  claimable_row clock limit org t k e there chosen =
      let (e', there', ok') = query.mem-candidates (is_claimable clock org) limit t k chosen in
      subst (λ x. is_claimable clock org x ≡ true) (some-injective _ _ (sym there' ∙ there)) ok'

  apply-AllBounded : (op : OutboxOp) (t : Content) → AllBounded t → AllBounded (apply op t)
  unfolding apply write_outbox_event new_outbox_event claim_unpublished_outbox_events claimed_ids
      lock_all lock_event mark_outbox_published publish_event mark_outbox_failed fail_event
  apply-AllBounded (write call input) t all =
      written-AllBounded (unfold new_outbox_event in new_outbox_event call input) t _ refl
        (omega arith) all
  apply-AllBounded (claim clock token limit org) t all =
      update_keeps Bounded
        (λ e. includes_string (query.candidates (is_claimable clock org) limit t) e.id)
        (unfold lock_event in lock_event clock.db_now token) t (λ e. refl)
        (λ k e h hit.
          let (unsent, few) = claimable_facts clock org e (
            claimable_row clock limit org t k e h (
              subst
                (λ i. includes_string (query.candidates (is_claimable clock org) limit t) i ≡ true)
                (outbox.key-row t k e h) hit)) in
          omega (arith, few))
        all
  apply-AllBounded (mark_published now [] token) t all = all
  apply-AllBounded (mark_published now (i ∷ ids) token) t all =
      update_keeps Bounded (λ e. includes_string (i ∷ ids) e.id && holds_lock token e)
        (unfold publish_event in publish_event now) t (λ e. refl) (λ k e h hit. all k e h) all
  apply-AllBounded (mark_failed now id token message attempts) t all =
      update_keeps Bounded (λ e. str_eq e.id id && some_equal e.lock_token token)
        (unfold fail_event in fail_event now message attempts) t (λ e. refl)
        (λ k e h hit. all k e h) all

  -- If no row has been claimed more than ten times, then so it is after any sequence of writes,
  -- claims and marks.
  pub attempts_bounded :
      (ops : List OutboxOp) (t : Content) → AllBounded t → AllBounded (apply_all ops t)
  unfolding apply_all
  attempts_bounded [] t all = all
  attempts_bounded (op ∷ ops) t all = attempts_bounded ops (apply op t) (apply-AllBounded op t all)

  abbrev IsSent : Content → String → Type 0
  IsSent t k = (e : OutboxEvent) × (row t k ≡ some e) × (is_some e.published_at ≡ true)

  update-IsSent :
      (hit : OutboxEvent → Bool) (f : OutboxEvent → OutboxEvent) (t : Content) (k : String)
      → ((e : OutboxEvent) → (f e).id ≡ e.id)
      → ((e : OutboxEvent) → is_some e.published_at ≡ true → is_some (f e).published_at ≡ true)
      → IsSent t k
      → IsSent (outbox.update_many hit f t).1 k
  update-IsSent hit f t k same keeps (e, there, sent) = (
    if hit e then f e else e,
    outbox.row-update_many hit f t same k ∙ rw there refl,
    elim (Bool-cases (hit e)) [ inl yes' ↦ rw yes' (keeps e sent) | inr no' ↦ rw no' sent ],
  )

  written-IsSent :
      (new : OutboxEvent) (t : Content) (k : String) (made : Option Content)
      → outbox.create new t ≡ made
      → IsSent t k
      → IsSent (committed t (or_throw made)) k
  written-IsSent new t k none h s = s
  written-IsSent new t k (some t') h (e, there, sent) = (
    e,
    ground (
      arith,
      eq_iff new.id k,
      outbox.row-create new t t' h k,
      outbox.create_fresh new t t' h,
      ap (row t) {x = new.id} {y = k},
    ),
    sent,
  )

  apply-IsSent : (op : OutboxOp) (t : Content) (k : String) → IsSent t k → IsSent (apply op t) k
  unfolding apply write_outbox_event new_outbox_event claim_unpublished_outbox_events lock_all
      lock_event mark_outbox_published publish_event mark_outbox_failed fail_event
  apply-IsSent (write call input) t k s =
      written-IsSent (unfold new_outbox_event in new_outbox_event call input) t k _ refl s
  apply-IsSent (claim clock token limit org) t k s =
      update-IsSent _ (unfold lock_event in lock_event clock.db_now token) t k (λ e. refl)
        (λ e h. h) s
  apply-IsSent (mark_published now [] token) t k s = s
  apply-IsSent (mark_published now (i ∷ ids) token) t k s =
      update-IsSent _ (unfold publish_event in publish_event now) t k (λ e. refl) (λ e h. refl) s
  apply-IsSent (mark_failed now id token message attempts) t k s =
      update-IsSent _ (unfold fail_event in fail_event now message attempts) t k (λ e. refl)
        (λ e h. h) s

  apply_all-IsSent :
      (ops : List OutboxOp) (t : Content) (k : String) → IsSent t k → IsSent (apply_all ops t) k
  unfolding apply_all
  apply_all-IsSent [] t k s = s
  apply_all-IsSent (op ∷ ops) t k s = apply_all-IsSent ops (apply op t) k (apply-IsSent op t k s)

  -- An event that is published is in no later claim, whatever happened to the table in between.
  pub published_never_claimed :
      (ops : List OutboxOp) (t : Content) (id : String) (e : OutboxEvent) (clock : Clock)
      (limit : ℕ) (org : Option String)
      → row t id ≡ some e
      → is_some e.published_at ≡ true
      → includes_string (claimed_ids outbox query clock limit org (apply_all ops t)) id ≡ false
  unfolding claimed_ids
  published_never_claimed ops t id e clock limit org there sent =
      let (e', there', sent') = apply_all-IsSent ops t id (e, there, sent) in
      elim (Bool-cases
        (includes_string (claimed_ids outbox query clock limit org (apply_all ops t)) id)) [
          | inl again ↦
              let (unsent, few) =
                claimable_facts clock org e'
                  (claimable_row clock limit org (apply_all ops t) id e' there' again) in
              cc (ap is_some unsent, sent')
          | inr out ↦ out
        ]
