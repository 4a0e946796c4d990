-- ===== src/Shared/Transaction.antt =====
-- src/infrastructure/database/transaction-manager.ts, and the phases of an operation. A database
-- state is of any type `D`: what runs inside a transaction gives a result and the state to
-- commit, and a thrown error rolls every write back.
use dpdpos_backend.Prelude.{
  JsText, literal, Option, none, some, ◌≡◌, refl, ap, ◌⊎◌, inl, inr, arith,
}
use dpdpos_backend.Shared.Errors.{Result, ok, err, Thrown, app, conflicting_state}

module _ {D A : Type 0} where
  abbrev commit : Result (A × D) → D → Result A × D
  commit (ok (a, d')) d = (ok a, d')
  commit (err e) d = (err e, d)

  abbrev pub with_transaction : (D → Result (A × D)) → D → Result A × D
  with_transaction body d = commit (body d) d

-- Checks made before the transaction; a thrown error ends the operation with nothing written.
abbrev pub checked : {D A B : Type 0} → Result A → (A → D → Result B × D) → D → Result B × D
checked (ok a) rest d = rest a d
checked (err e) rest d = (err e, d)

abbrev pub stale_version : JsText
stale_version = literal "Concurrent update detected; refresh and retry with the current version"

-- The row that a write returned, or the error of a stale version.
abbrev pub or_stale : {R A D : Type 0} → Option R × D → (R → D → Result (A × D)) → Result (A × D)
or_stale (none, d) rest = err (app (conflicting_state stale_version))
or_stale (some r, d) rest = rest r d

-- A transaction commits what its body returned, or leaves the state as it was.
pub with_transaction_cases :
    {A D : Type 0} (body : D → Result (A × D)) (d : D)
    → ((with_transaction body d).1 ≡ d)
      ⊎ ((a : A) × (d' : D) × (body d ≡ ok (a, d')) × (with_transaction body d ≡ (ok a, d')))
with_transaction_cases {A} {D} body d = go (body d) refl
  where
    go :
        (r : Result (A × D))
        → body d ≡ r
        → ((with_transaction body d).1 ≡ d)
          ⊎ ((a : A) × (d' : D) × (body d ≡ ok (a, d')) × (with_transaction body d ≡ (ok a, d')))
    go (ok (a, d')) e = inr (a, d', e, ap (λ r. commit r d) e)
    go (err x) e = inl (ap (λ r. (commit r d).1) e)

pub checked_cases :
    {D A B : Type 0} (r : Result A) (rest : A → D → Result B × D) (d : D)
    → ((checked r rest d).1 ≡ d) ⊎ ((a : A) × (r ≡ ok a) × (checked r rest d ≡ rest a d))
checked_cases (ok a) rest d = inr (a, refl, refl)
checked_cases (err e) rest d = inl refl

pub or_stale_ok :
    {R A D : Type 0} (w : Option R × D) (rest : R → D → Result (A × D)) {b : A × D}
    → or_stale w rest ≡ ok b
    → (r : R) × (w.0 ≡ some r) × (rest r w.1 ≡ ok b)
or_stale_ok (none, d) rest h = cc
or_stale_ok (some r, d) rest h = (r, refl, h)

-- An insert: what follows it, or the handler of a violated unique index.
abbrev pub on_created : {R A D : Type 0} → Option (R × D) → Result A → (R → D → Result A) → Result A
on_created none handler rest = handler
on_created (some (r, d)) handler rest = rest r d

pub on_created_ok :
    {R A D : Type 0} (o : Option (R × D)) (handler : Result A) (rest : R → D → Result A) {b : A}
    → on_created o handler rest ≡ ok b
    → ((o ≡ none) × (handler ≡ ok b)) ⊎ ((r : R) × (d : D) × (o ≡ some (r, d)) × (rest r d ≡ ok b))
on_created_ok none handler rest h = inl (refl, h)
on_created_ok (some (r, d)) handler rest h = inr (r, d, refl, h)

-- Inversion of an operation that succeeded.
pub checked_ok :
    {D A B : Type 0} (r : Result A) (rest : A → D → Result B × D) (d : D) {b : B}
    → (checked r rest d).0 ≡ ok b
    → (a : A) × (r ≡ ok a) × (checked r rest d ≡ rest a d)
checked_ok (ok a) rest d h = (a, refl, refl)
checked_ok (err e) rest d h = cc

pub with_transaction_ok :
    {A D : Type 0} (body : D → Result (A × D)) (d : D) {a : A}
    → (with_transaction body d).0 ≡ ok a
    → (d' : D) × (body d ≡ ok (a, d')) × (with_transaction body d ≡ (ok a, d'))
with_transaction_ok {A} {D} body d {a} h = go (body d) refl h
  where
    go :
        (r : Result (A × D))
        → body d ≡ r
        → (commit r d).0 ≡ ok a
        → (d' : D) × (body d ≡ ok (a, d')) × (with_transaction body d ≡ (ok a, d'))
    go (ok (x, d')) e f = (d', ground arith, ground arith)
    go (err x) e f = cc f

-- A transaction that throws, after checks that passed or failed, leaves the state as it was.
pub checked_err :
    {D A B : Type 0} (r : Result A) (body : A → D → Result (B × D)) (d : D)
    → ((a : A) → (e : Thrown) × (body a d ≡ err e))
    → (e : Thrown) × (checked r (λ a. with_transaction (body a)) d ≡ (err e, d))
checked_err (ok a) body d h = let (e, thrown) = h a in (e, ap (λ r. commit r d) thrown)
checked_err (err e) body d h = (e, refl)
