-- ===== src/Outbox/ListQuery.antt =====
-- The claims of src/events/outbox/outbox.repository.ts on an outbox that is a list: the first rows that meet
-- the condition. The laws that a claim relies on can hold.
use dpdpos_backend.Prelude.{
  ℕ, ◌≤◌, String, ◌≡◌, sym, refl, inl, inr, true, List, [], ◌∷◌, Memᴰ, take, filter, map, zero, suc,
  arith, str_eq, eq_iff, includes_string, Bool-cases, length-take-le, length-map, subst, some,
}
use dpdpos_backend.Database.Rows.{get, get-Memᴰ, Memᴰ-filter}
use dpdpos_backend.Database.ListTable.{list_table}
use dpdpos_backend.Outbox.Events.{OutboxEvent, outbox_key, outbox_clash}
use dpdpos_backend.Outbox.Claims.{OutboxQuery}

pub Memᴰ-take : {A : Type 0} (n : ℕ) (xs : List A) (x : A) → Memᴰ x (take n xs) → Memᴰ x xs
Memᴰ-take zero xs x m = elim m [ ]
Memᴰ-take (suc n) [] x m = elim m [ ]
Memᴰ-take (suc n) (y ∷ xs) x (Memᴰ.head e) = Memᴰ.head e
Memᴰ-take (suc n) (y ∷ xs) x (Memᴰ.tail m) = Memᴰ.tail (Memᴰ-take n xs x m)

pub row_of :
    (xs : List OutboxEvent) (id : String)
    → includes_string (map outbox_key xs) id ≡ true
    → (e : OutboxEvent) × Memᴰ e xs × (outbox_key e ≡ id)
row_of [] id h = cc
row_of (x ∷ xs) id h = elim (Bool-cases (str_eq (outbox_key x) id)) [
  | inl here ↦ (x, Memᴰ.head refl, (eq_iff (outbox_key x) id).0 here)
  | inr there ↦ let (e, m, same) = row_of xs id (ground arith) in (e, Memᴰ.tail m, same)
]

unfoldable pub first_rows : OutboxQuery (list_table outbox_key outbox_clash)
unfolding list_table
first_rows = record {
  candidates = λ where' limit t. map outbox_key (take limit (filter where' t.0));
  mem-candidates = λ where' limit t id h.
      let (e, m, same) = row_of (take limit (filter where' t.0)) id h in
      let (there, meets) =
        Memᴰ-filter outbox_key where' t.0 e (Memᴰ-take limit (filter where' t.0) e m) in
      (
        e,
        subst (λ k. get outbox_key t.0 k ≡ some e) same (get-Memᴰ outbox_key t.0 e t.1 there),
        meets,
      );
  length-candidates = λ where' limit t.
      subst (λ n. n ≤ limit) (sym (length-map outbox_key (take limit (filter where' t.0))))
        (length-take-le limit (filter where' t.0));
}
