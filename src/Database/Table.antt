-- ===== src/Database/Table.antt =====
-- The part of a Prisma model delegate (a third-party client of PostgreSQL) that the repositories
-- use, as an interface. A table is seen through its primary key; the laws are what the client and
-- the database document: a query returns a row that meets its condition, an insert checks the
-- unique indexes, and `updateMany` writes every row that meets the condition and counts them.
use dpdpos_backend.Prelude.{
  ℕ, String, ◌≡◌, Bool, true, false, Option, none, some, List, Memᴰ, str_eq, if◌then◌else◌,
}
use mathlib.Core.Option

-- `key` is the primary key and `clash` says which two rows a unique index forbids to coexist.
pub record Table (R : Type 0) (key : R → String) (clash : R → R → Bool) : Type 1 where
  pub Content : Type 0
  pub row : Content → String → Option R
  pub find_first : (R → Bool) → Content → Option R
  -- The second argument is the column of `orderBy: { column: "desc" }`.
  pub find_many : (R → Bool) → (R → ℕ) → Content → List R
  -- `none` is a violated unique index (P2002).
  pub create : R → Content → Option Content
  pub update_many : (R → Bool) → (R → R) → Content → ℕ × Content
  pub key-row : (t : Content) (k : String) (r : R) → row t k ≡ some r → key r ≡ k
  pub find_first_some :
      (where' : R → Bool) (t : Content) (r : R)
      → find_first where' t ≡ some r
      → (row t (key r) ≡ some r) × (where' r ≡ true)
  pub find_first_none :
      (where' : R → Bool) (t : Content)
      → find_first where' t ≡ none
      → (k : String) (r : R) → row t k ≡ some r
      → where' r ≡ false
  pub mem-find_many :
      (where' : R → Bool) (order : R → ℕ) (t : Content) (r : R)
      → Memᴰ r (find_many where' order t)
      → (row t (key r) ≡ some r) × (where' r ≡ true)
  pub row-create :
      (r : R) (t t' : Content)
      → create r t ≡ some t'
      → (k : String) → row t' k ≡ (if str_eq (key r) k then some r else row t k)
  pub create_fresh : (r : R) (t t' : Content) → create r t ≡ some t' → row t (key r) ≡ none
  pub create_apart :
      (r : R) (t t' : Content)
      → create r t ≡ some t'
      → (k : String) (s : R) → row t k ≡ some s
      → clash s r ≡ false
  pub row-update_many :
      (where' : R → Bool) (write : R → R) (t : Content)
      → ((r : R) → key (write r) ≡ key r)
      → (k : String)
      → row (update_many where' write t).1 k
        ≡ Option.map (λ r. if where' r then write r else r) (row t k)
  pub count_zero :
      (where' : R → Bool) (write : R → R) (t : Content)
      → (update_many where' write t).0 ≡ 0
      → (k : String) (r : R) → row t k ≡ some r
      → where' r ≡ false
  pub count_none :
      (where' : R → Bool) (write : R → R) (t : Content)
      → ((k : String) (r : R) → row t k ≡ some r → where' r ≡ false)
      → (update_many where' write t).0 ≡ 0
