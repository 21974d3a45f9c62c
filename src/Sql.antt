-- ===== src/Sql.antt =====
-- The statements of src/intelligence/persist.rs: values that Rust binds, columns with the types of
-- migrations/0002_intelligence.sql, and effects on the tables of that file. The driver and the
-- server are parameters. Columns that the statements do not name are left out of a row.
pub mod Laws
use chain_lens.Base.{
  ℕ, ◌++◌, Option, none, some, List, [], ◌∷◌, Bool, true, false, not, ◌&&◌, if◌then◌else◌, ◌==◌,
  bytes_eq, ℤ, pos, negsuc, take, Outcome, ok, err, panic,
}
use chain_lens.Domain.{Bytes}

pub data SqlType : Type 0 where
  bytea text_type varchar numeric int2 int4 int8 float8 boolean jsonb timestamptz date : SqlType
  bytea_array text_array : SqlType

-- The Rust types that a column is read as.
pub data RustType : Type 0 where
  as_i16 as_i32 as_i64 as_string as_bytes : RustType

-- A value by its Rust type, `none` where an `Option` of that type is bound and is `None`. `F` is
-- `f64`, and JSON is an array of texts.
pub data Value (F : Type 0) : Type 0 where
  vec_u8 : Option Bytes → Value F
  string : Option Bytes → Value F
  int_64 : Option ℤ → Value F
  int_32 : ℕ → Value F
  float_64 : F → Value F
  flag : Bool → Value F
  json : List Bytes → Value F
  vec_vec_u8 : List Bytes → Value F
  vec_string : List Bytes → Value F

pub data SqlError : Type 0 where
  row_not_found datatype_mismatch constraint_violation : SqlError
  protocol : (message : Bytes) → SqlError

pub data TableName : Type 0 where
  transaction_actions address_stats contract_profiles anomalies mev_events : TableName
  block_analytics address_relationships : TableName

-- `ON CONFLICT DO NOTHING`, or `DO UPDATE SET` of all other columns, where the key is the first
-- columns.
pub data Conflict : Type 0 where
  do_nothing : Conflict
  do_update : (key : ℕ) → Conflict

abbrev pub Row : Type 0 → Type 0
Row F = List (Value F)

pub record Tables (F : Type 0) : Type 0 where
  pub transaction_actions : List (Row F)
  pub address_stats : List (Row F)
  pub contract_profiles : List (Row F)
  pub anomalies : List (Row F)
  pub mev_events : List (Row F)
  pub block_analytics : List (Row F)
  pub address_relationships : List (Row F)

-- `accepts` tells whether a bound value may be assigned to a column of a type, `constrained`
-- whether a row meets the constraints of its table other than a key, `nextval` draws from the
-- sequence of a table, and `reads` tells whether `Row::get` decodes a column of a type as a type of
-- Rust, or as an `Option` of it.
pub record Server (F : Type 0) : Type 0 where
  pub accepts : SqlType → Value F → Bool
  pub constrained : TableName → Row F → Bool
  pub nextval : TableName → ℤ
  pub reads : RustType → SqlType → Bool

pub record Insert (F : Type 0) : Type 0 where
  pub table : TableName
  pub columns : List SqlType
  pub values : Row F
  pub conflict : Conflict

-- Fallible code with the tables as its state: what is written before an error stays.
abbrev pub Effect : Type 0 → Type 0 → Type 0
Effect F A = Tables F → Outcome SqlError A × Tables F

module _ {F : Type 0} where
  abbrev pub after :
      {A B : Type 0}
      → Outcome SqlError A × Tables F
      → (A → Effect F B)
      → Outcome SqlError B × Tables F
  after (ok a, db) next = next a db
  after (err e, db) next = (err e, db)
  after (panic, db) next = (panic, db)

  infixl 5 ◌>>=◌ ◌>>◌
  abbrev pub ◌>>=◌ : {A B : Type 0} → Effect F A → (A → Effect F B) → Effect F B
  ◌>>=◌ first next db = after (first db) next

  abbrev pub ◌>>◌ : {A B : Type 0} → Effect F A → Effect F B → Effect F B
  first >> second = first >>= λ _. second

  -- A result that leaves the tables alone.
  abbrev pub returns : {A : Type 0} → Outcome SqlError A → Effect F A
  returns result db = (result, db)

  abbrev pub rows : TableName → Tables F → List (Row F)
  rows transaction_actions db = db.transaction_actions
  rows address_stats db = db.address_stats
  rows contract_profiles db = db.contract_profiles
  rows anomalies db = db.anomalies
  rows mev_events db = db.mev_events
  rows block_analytics db = db.block_analytics
  rows address_relationships db = db.address_relationships

  abbrev pub with_rows : TableName → List (Row F) → Tables F → Tables F
  with_rows transaction_actions rs db = record db { transaction_actions = rs }
  with_rows address_stats rs db = record db { address_stats = rs }
  with_rows contract_profiles rs db = record db { contract_profiles = rs }
  with_rows anomalies rs db = record db { anomalies = rs }
  with_rows mev_events rs db = record db { mev_events = rs }
  with_rows block_analytics rs db = record db { block_analytics = rs }
  with_rows address_relationships rs db = record db { address_relationships = rs }

  -- Whether two values of a key are equal.
  abbrev pub same_value : Value F → Value F → Bool
  same_value (vec_u8 (some a)) (vec_u8 (some b)) = bytes_eq a b
  same_value (string (some a)) (string (some b)) = bytes_eq a b
  same_value (int_64 (some (pos a))) (int_64 (some (pos b))) = a == b
  same_value (int_64 (some (negsuc a))) (int_64 (some (negsuc b))) = a == b
  same_value _ _ = false

  abbrev pub same_values : Row F → Row F → Bool
  same_values [] [] = true
  same_values (v ∷ vs) (w ∷ ws) = same_value v w && same_values vs ws
  same_values _ _ = false

  -- `DO UPDATE`: the row takes the place of the one with its key.
  unfoldable pub upsert : ℕ → Row F → List (Row F) → List (Row F)
  upsert key row [] = row ∷ []
  upsert key row (old ∷ table) =
      let rest = upsert key row table in
      if same_values (take key row) (take key old) then row ∷ table else old ∷ rest

  -- None of the tables that a `DO NOTHING` names has a key but the serial number of its rows.
  unfoldable pub store_row : Conflict → Row F → List (Row F) → List (Row F)
  unfolding upsert
  store_row do_nothing row table = table ++ row ∷ []
  store_row (do_update key) row table = upsert key row table

  module _ (server : Server F) where
    unfoldable pub all_accepted : List SqlType → Row F → Bool
    all_accepted [] [] = true
    all_accepted (t ∷ ts) (v ∷ vs) = server.accepts t v && all_accepted ts vs
    all_accepted _ _ = false

    -- `execute`
    unfoldable pub execute : Insert F → Effect F (Unit {0})
    unfolding all_accepted store_row
    execute i db =
        if not (all_accepted i.columns i.values)
        then (err datatype_mismatch, db)
        else if not (server.constrained i.table i.values)
        then (err constraint_violation, db)
        else (ok tt, with_rows i.table (store_row i.conflict i.values (rows i.table db)) db)

    -- `Row::get`, which panics on a column of a type that it does not decode.
    unfoldable pub get_column : {E A : Type 0} → RustType → SqlType → A → Outcome E A
    get_column rust column a = if server.reads rust column then ok a else panic
