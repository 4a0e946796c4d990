-- ===== src/Database/ListTable.antt =====
-- A table kept as a list of rows with distinct keys: the concrete database of the witnesses.
use mathlib.Core.Option
use dpdpos_backend.Prelude.{
  String, ◌≡◌, refl, Bool, true, false, Option, none, some, List, [], ◌∷◌, Memᴰ, arith, str_eq,
  if◌then◌else◌, any, ap, sym, filter,
}
use dpdpos_backend.Database.Table.{Table}
use dpdpos_backend.Database.Rows.{
  Apart, Distinct, get, first, write_one, write_all, count_writes, Distinct-write_all, key-get,
  get-Apart, get-Memᴰ, Memᴰ-get, first-Memᴰ, first-none, Memᴰ-filter, count_writes-zero,
  count_writes_none, get-write_all,
}

module _ {R : Type 0} (key : R → String) (clash : R → R → Bool) where
  pub is_apart : String → List R → Bool
  is_apart k [] = true
  is_apart k (r ∷ rs) = if str_eq (key r) k then false else is_apart k rs

  pub is_apart→Apart : (k : String) (rs : List R) → is_apart k rs ≡ true → Apart key k rs
  unfolding is_apart
  is_apart→Apart k [] h = tt
  is_apart→Apart k (r ∷ rs) h = (ground arith, is_apart→Apart k rs (ground arith))

  pub may_insert : R → List R → Bool
  may_insert r rs = if any (λ s. clash s r) rs then false else is_apart (key r) rs

  pub may_insert→Apart : (r : R) (rs : List R) → may_insert r rs ≡ true → Apart key (key r) rs
  unfolding may_insert
  may_insert→Apart r rs h = is_apart→Apart (key r) rs (ground arith)

  pub any-false : (p : R → Bool) (rs : List R) (s : R) → any p rs ≡ false → Memᴰ s rs → p s ≡ false
  any-false p [] s h m = elim m [ ]
  any-false p (x ∷ rs) s h (Memᴰ.head e) = ground (arith, ap p e)
  any-false p (x ∷ rs) s h (Memᴰ.tail m) = ground (arith, any-false p rs s)

  pub create_apart_lem :
      (r : R) (rs : List R) (s : R) → may_insert r rs ≡ true → Memᴰ s rs → clash s r ≡ false
  unfolding may_insert
  create_apart_lem r rs s h m = any-false (λ s. clash s r) rs s (ground arith) m

  abbrev pub ListContent : Type 0
  ListContent = (rs : List R) × Distinct key rs

  pub insert : (r : R) (t : ListContent) (b : Bool) → may_insert r t.0 ≡ b → Option ListContent
  insert r t true e = some (r ∷ t.0, (may_insert→Apart r t.0 e, t.1))
  insert r t false e = none

  pub insert-some :
      (r : R) (t t' : ListContent) (b : Bool) (e : may_insert r t.0 ≡ b)
      → insert r t b e ≡ some t'
      → (t'.0 ≡ r ∷ t.0) × (may_insert r t.0 ≡ true)
  unfolding insert
  insert-some r t t' true e h =
      (ap (λ (c : ListContent). c.0) (sym (Option.some-injective _ _ h)), e)
  insert-some r t t' false e h = cc

  -- The list as a table.
  unfoldable pub list_table : Table R key clash
  unfolding get first insert may_insert is_apart write_all write_one count_writes
  list_table = record {
    Content = ListContent;
    row = λ t k. get key t.0 k;
    find_first = λ p t. first key p t.0;
    find_many = λ p order t. filter p t.0;
    create = λ r t. insert r t (may_insert r t.0) refl;
    update_many = λ p f t.
        (count_writes key p t.0, (write_all key p f t.0, Distinct-write_all key p f t.0 t.1));
    key-row = λ t k r h. key-get key t.0 k r h;
    find_first_some =
        λ p t r h. let m = first-Memᴰ key p t.0 r h in (get-Memᴰ key t.0 r t.1 m.0, m.1);
    find_first_none = λ p t h k r e. first-none key p t.0 r h (Memᴰ-get key t.0 k r e);
    mem-find_many =
        λ p order t r m. let m' = Memᴰ-filter key p t.0 r m in (get-Memᴰ key t.0 r t.1 m'.0, m'.1);
    row-create = λ r t t' h k. rw (insert-some r t t' (may_insert r t.0) refl h).0 refl;
    create_fresh = λ r t t' h.
        get-Apart key t.0 (key r)
          (may_insert→Apart r t.0 (insert-some r t t' (may_insert r t.0) refl h).1);
    create_apart = λ r t t' h k s e.
        create_apart_lem r t.0 s (insert-some r t t' (may_insert r t.0) refl h).1
          (Memᴰ-get key t.0 k s e);
    row-update_many = λ p f t same k. get-write_all key p f same t.0 k;
    count_zero = λ p f t h k r e. count_writes-zero key p t.0 r h (Memᴰ-get key t.0 k r e);
    count_none =
        λ p f t h. count_writes_none key p t.0 (λ r m. h (key r) r (get-Memᴰ key t.0 r t.1 m));
  }
