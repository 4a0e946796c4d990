-- ===== src/Database/Rows.antt =====
-- Rows in a list with distinct keys: queries and writes, and what they satisfy.
use mathlib.Core.Option
use dpdpos_backend.Prelude.{
  ℕ, suc, String, ◌≡◌, refl, Bool, true, false, Option, none, some, List, [], ◌∷◌, Memᴰ, arith,
  str_eq, eq_iff, if◌then◌else◌, filter, ap, Bool-cases, inl, inr,
}

module _ {R : Type 0} (key : R → String) where
  abbrev pub Apart : String → List R → Type 0
  Apart k [] = Unit
  Apart k (r ∷ rs) = (str_eq (key r) k ≡ false) × Apart k rs

  abbrev pub Distinct : List R → Type 0
  Distinct [] = Unit
  Distinct (r ∷ rs) = Apart (key r) rs × Distinct rs

  unfoldable pub get : List R → String → Option R
  get [] k = none
  get (r ∷ rs) k = if str_eq (key r) k then some r else get rs k

  unfoldable pub first : (R → Bool) → List R → Option R
  first p [] = none
  first p (r ∷ rs) = if p r then some r else first p rs

  -- A write that would change the key is refused.
  unfoldable pub write_one : (R → Bool) → (R → R) → R → R
  write_one p f r = if p r then (if str_eq (key (f r)) (key r) then f r else r) else r

  unfoldable pub write_all : (R → Bool) → (R → R) → List R → List R
  write_all p f [] = []
  write_all p f (r ∷ rs) = write_one p f r ∷ write_all p f rs

  pub key-write_one : (p : R → Bool) (f : R → R) (r : R) → key (write_one p f r) ≡ key r
  unfolding write_one
  key-write_one p f r = ground (arith, eq_iff (key (f r)) (key r))

  pub Apart-write_all :
      (p : R → Bool) (f : R → R) (k : String) (rs : List R)
      → Apart k rs
      → Apart k (write_all p f rs)
  unfolding write_all
  Apart-write_all p f k [] h = tt
  Apart-write_all p f k (r ∷ rs) h = (rw (key-write_one p f r) h.0, Apart-write_all p f k rs h.1)

  pub Distinct-write_all :
      (p : R → Bool) (f : R → R) (rs : List R) → Distinct rs → Distinct (write_all p f rs)
  unfolding write_all
  Distinct-write_all p f [] h = tt
  Distinct-write_all p f (r ∷ rs) h =
      (rw (key-write_one p f r) (Apart-write_all p f (key r) rs h.0), Distinct-write_all p f rs h.1)

  pub key-get : (rs : List R) (k : String) (r : R) → get rs k ≡ some r → key r ≡ k
  unfolding get
  key-get [] k r h = cc
  key-get (s ∷ rs) k r h = ground (arith, eq_iff (key s) k, key-get rs k r)

  pub get-Apart : (rs : List R) (k : String) → Apart k rs → get rs k ≡ none
  unfolding get
  get-Apart [] k h = refl
  get-Apart (r ∷ rs) k h = rw h.0 (get-Apart rs k h.1)

  pub Apart-ne :
      (rs : List R) (k : String) (r : R) → Apart k rs → Memᴰ r rs → str_eq (key r) k ≡ false
  Apart-ne [] k r h m = elim m [ ]
  Apart-ne (s ∷ rs) k r h (Memᴰ.head e) = rw e h.0
  Apart-ne (s ∷ rs) k r h (Memᴰ.tail m) = Apart-ne rs k r h.1 m

  pub get-Memᴰ : (rs : List R) (r : R) → Distinct rs → Memᴰ r rs → get rs (key r) ≡ some r
  unfolding get
  get-Memᴰ [] r h m = elim m [ ]
  get-Memᴰ (s ∷ rs) r h (Memᴰ.head e) = ground (arith, eq_iff (key s) (key r), ap key e)
  get-Memᴰ (s ∷ rs) r h (Memᴰ.tail m) = ground (
    arith,
    get-Memᴰ rs r h.1 m,
    Apart-ne rs (key s) r h.0 m,
    eq_iff (key s) (key r),
    eq_iff (key r) (key s),
  )

  pub Memᴰ-get : (rs : List R) (k : String) (r : R) → get rs k ≡ some r → Memᴰ r rs
  unfolding get
  Memᴰ-get [] k r h = cc
  Memᴰ-get (s ∷ rs) k r h = elim (Bool-cases (str_eq (key s) k)) [
    | inl e ↦ Memᴰ.head (ground arith)
    | inr n ↦ Memᴰ.tail (Memᴰ-get rs k r (ground arith))
  ]

  pub first-Memᴰ :
      (p : R → Bool) (rs : List R) (r : R) → first p rs ≡ some r → Memᴰ r rs × (p r ≡ true)
  unfolding first
  first-Memᴰ p [] r h = cc
  first-Memᴰ p (s ∷ rs) r h = elim (Bool-cases (p s)) [
    | inl e ↦ (Memᴰ.head (ground arith), ground arith)
    | inr n ↦ (let m = first-Memᴰ p rs r (ground arith) in (Memᴰ.tail m.0, m.1))
  ]

  pub first-none :
      (p : R → Bool) (rs : List R) (r : R) → first p rs ≡ none → Memᴰ r rs → p r ≡ false
  unfolding first
  first-none p [] r h m = elim m [ ]
  first-none p (s ∷ rs) r h (Memᴰ.head e) = ground (arith, ap p e)
  first-none p (s ∷ rs) r h (Memᴰ.tail m) = ground (arith, first-none p rs r)

  unfoldable pub count_writes : (R → Bool) → List R → ℕ
  count_writes p [] = 0
  count_writes p (r ∷ rs) = let rest = count_writes p rs in if p r then suc rest else rest

  pub count_writes-zero :
      (p : R → Bool) (rs : List R) (r : R) → count_writes p rs ≡ 0 → Memᴰ r rs → p r ≡ false
  unfolding count_writes
  count_writes-zero p [] r h m = elim m [ ]
  count_writes-zero p (s ∷ rs) r h (Memᴰ.head e) = ground (arith, ap p e)
  count_writes-zero p (s ∷ rs) r h (Memᴰ.tail m) = ground (arith, count_writes-zero p rs r)

  pub count_writes_none :
      (p : R → Bool) (rs : List R) → ((r : R) → Memᴰ r rs → p r ≡ false) → count_writes p rs ≡ 0
  unfolding count_writes
  count_writes_none p [] h = refl
  count_writes_none p (s ∷ rs) h =
      rw (h s (Memᴰ.head refl)) (count_writes_none p rs (λ r m. h r (Memᴰ.tail m)))

  pub get-write_all :
      (p : R → Bool) (f : R → R)
      → ((r : R) → key (f r) ≡ key r)
      → (rs : List R) (k : String)
      → get (write_all p f rs) k ≡ Option.map (λ r. if p r then f r else r) (get rs k)
  unfolding get write_all write_one
  get-write_all p f same [] k = refl
  get-write_all p f same (r ∷ rs) k = ground (
    arith,
    same r,
    eq_iff (key (f r)) (key r),
    eq_iff (key r) k,
    eq_iff (key (f r)) k,
    get-write_all p f same rs k,
  )

  pub Memᴰ-filter :
      (p : R → Bool) (rs : List R) (r : R) → Memᴰ r (filter p rs) → Memᴰ r rs × (p r ≡ true)
  Memᴰ-filter p [] r m = elim m [ ]
  Memᴰ-filter p (s ∷ rs) r m = go (Memᴰ-filter p rs r) (p s) refl m
    where
      go :
          (Memᴰ r (filter p rs) → Memᴰ r rs × (p r ≡ true))
          → (b : Bool) → p s ≡ b
          → Memᴰ r (if b then s ∷ filter p rs else filter p rs)
          → Memᴰ r (s ∷ rs) × (p r ≡ true)
      go ih true e (Memᴰ.head q) = (Memᴰ.head q, rw q e)
      go ih true e (Memᴰ.tail n) = let m' = ih n in (Memᴰ.tail m'.0, m'.1)
      go ih false e n = let m' = ih n in (Memᴰ.tail m'.0, m'.1)
