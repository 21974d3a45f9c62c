-- ===== src/Store/Table.antt =====
-- A table of the database: the rows that it holds, in no order that a query may rely on; a row is
-- inserted in front. `same` tells whether two rows agree on the key that an `ON CONFLICT` clause
-- names, `ref` whether a row's foreign keys are met.
pub mod Laws
use chain_lens.Base.{
  List, [], ◌∷◌, ◌≡◌, refl, Bool, true, false, Outcome, ok, err, ◌>>=◌, if◌then◌else◌, any, keep,
  arith, All, Bool-cases, inl, inr, >>=-eq-ok, length, ◌<◌, ◌≤◌,
}

-- What PostgreSQL reports when a statement breaks a constraint.
pub data DbError : Type 0 where
  unique_violation foreign_key_violation : DbError

module _ {R : Type 0} (same : R → R → Bool) (ref : R → Bool) where
  -- `INSERT … ON CONFLICT (key) DO NOTHING`
  unfoldable pub insert : R → List R → Outcome DbError (List R)
  insert row table =
      if any (same row) table
      then ok table
      else if ref row
      then ok (row ∷ table)
      else err foreign_key_violation

  -- One statement for each row.
  unfoldable pub insert_all : List R → List R → Outcome DbError (List R)
  unfolding insert
  insert_all [] table = ok table
  insert_all (row ∷ rows) table = do table' ← insert row table; insert_all rows table'

-- No two rows agree on the key.
abbrev pub Unique {ℓ} : {R : Type ℓ} → (R → R → Bool) → List R → Type 0
Unique same [] = Unit
Unique same (row ∷ table) = (any (same row) table ≡ false) × Unique same table
