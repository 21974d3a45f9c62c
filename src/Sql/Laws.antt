-- ===== src/Sql/Laws.antt =====
-- What statements leave alone, and what the server rejects.
use mathlib.Core.Path.{◌∙◌}
use chain_lens.Base.{
  ◌≡◌, ◌≢◌, refl, List, [], ◌∷◌, true, false, not, Outcome, ok, err, panic, Bool-cases, inl, inr,
}
use chain_lens.Sql.{
  RustType, get_column, SqlType, Value, SqlError, TableName, transaction_actions, address_stats,
  contract_profiles, anomalies, mev_events, block_analytics, address_relationships, Row, Tables,
  Server, Insert, Effect, after, ◌>>=◌, rows, with_rows, all_accepted, store_row, execute,
}

rows-with_rows :
    {F : Type 0} (t u : TableName) (rs : List (Row F)) (db : Tables F)
    → t ≢ u
    → rows t (with_rows u rs db) ≡ rows t db
rows-with_rows transaction_actions transaction_actions rs db other = absurd (other refl)
rows-with_rows address_stats address_stats rs db other = absurd (other refl)
rows-with_rows contract_profiles contract_profiles rs db other = absurd (other refl)
rows-with_rows anomalies anomalies rs db other = absurd (other refl)
rows-with_rows mev_events mev_events rs db other = absurd (other refl)
rows-with_rows block_analytics block_analytics rs db other = absurd (other refl)
rows-with_rows address_relationships address_relationships rs db other = absurd (other refl)
rows-with_rows t u rs db other = refl

module _ {F : Type 0} (t : TableName) where
  -- The table holds afterwards what it held before.
  abbrev pub Leaves : {A : Type 0} → Effect F A → Type 0
  Leaves effect = (db : Tables F) → rows t (effect db).1 ≡ rows t db

  after-Leaves :
      {A B : Type 0} (r : Outcome SqlError A) (db db' : Tables F) (next : A → Effect F B)
      → rows t db' ≡ rows t db
      → ((a : A) → Leaves (next a))
      → rows t (after (r, db') next).1 ≡ rows t db
  after-Leaves (ok a) db db' next same each = each a db' ∙ same
  after-Leaves (err e) db db' next same each = same
  after-Leaves panic db db' next same each = same

  pub Leaves->>= :
      {A B : Type 0} (first : Effect F A) (next : A → Effect F B)
      → Leaves first
      → ((a : A) → Leaves (next a))
      → Leaves (first >>= next)
  Leaves->>= first next one each db = after-Leaves (first db).0 db (first db).1 next (one db) each

  module _ (server : Server F) where
    pub execute-Leaves : (i : Insert F) → t ≢ i.table → Leaves (execute server i)
    unfolding execute
    execute-Leaves i other db = elim (Bool-cases (not (all_accepted server i.columns i.values))) [
      | inl rejected ↦ rw rejected refl
      | inr accepted ↦ elim (Bool-cases (not (server.constrained i.table i.values))) [
        | inl broken ↦ rw (accepted, broken) refl
        | inr met ↦
            rw (accepted, met)
              (rows-with_rows t i.table (store_row i.conflict i.values (rows i.table db)) db other)
      ]
    ]

-- Some value does not fit its column.
pub data Misfit {F : Type 0} (server : Server F) : List SqlType → Row F → Type 0 where
  here :
      {t : SqlType} {v : Value F} {ts : List SqlType} {vs : Row F}
      → server.accepts t v ≡ false
      → Misfit server (t ∷ ts) (v ∷ vs)
  later :
      {t : SqlType} {v : Value F} {ts : List SqlType} {vs : Row F}
      → Misfit server ts vs
      → Misfit server (t ∷ ts) (v ∷ vs)

module _ {F : Type 0} (server : Server F) where
  -- One value that does not fit is enough.
  pub Misfit-rejected :
      (ts : List SqlType) (vs : Row F) → Misfit server ts vs → all_accepted server ts vs ≡ false
  unfolding all_accepted
  Misfit-rejected [] vs m = elim m [ ]
  Misfit-rejected (t ∷ ts) [] m = elim m [ ]
  Misfit-rejected (t ∷ ts) (v ∷ vs) (here h) = rw h refl
  Misfit-rejected (t ∷ ts) (v ∷ vs) (later m) = elim (Bool-cases (server.accepts t v)) [
    | inl taken ↦ rw taken (Misfit-rejected ts vs m)
    | inr refused ↦ rw refused refl
  ]

  pub rejected-Leaves :
      (t : TableName) (i : Insert F)
      → Misfit server i.columns i.values
      → Leaves t (execute server i)
  unfolding execute
  rejected-Leaves t i m db = rw (Misfit-rejected i.columns i.values m) refl

  -- Only a column of a type that is decoded is read.
  pub get_column-eq-ok :
      {E A : Type 0} (rust : RustType) (column : SqlType) (a : A) {b : A}
      → get_column server {E = E} rust column a ≡ ok b
      → server.reads rust column ≡ true
  unfolding get_column
  get_column-eq-ok rust column a h = elim (Bool-cases (server.reads rust column)) [
    | inl reads ↦ reads
    | inr unread ↦ let stuck = rw unread at h in cc
  ]

  pub get_column-reads :
      {E A : Type 0} (rust : RustType) (column : SqlType) (a : A)
      → server.reads rust column ≡ true
      → get_column server {E = E} rust column a ≡ ok a
  unfolding get_column
  get_column-reads rust column a reads = rw reads refl
