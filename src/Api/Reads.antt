-- ===== src/Api/Reads.antt =====
-- What src/api/handlers.rs answers about a block, a transaction and the state of the index. The
-- driver, the notations and `i64::from_str` are parameters; a query that fails is left out, but for
-- the one of `health`.
use mathlib.Core.Option
use chain_lens.Base.{
  ℕ, ◌-◌, Option, none, some, List, [], ◌∷◌, Bool, ◌==◌, if◌then◌else◌, leb, bytes_eq, ℤ, pos,
  negsuc, Outcome, ok, err, ◌>>=◌, ok_or,
}
use chain_lens.Domain.{Bytes, Block, Transaction}
use chain_lens.Store.Db.{Db}
use chain_lens.Sql.{
  bytea, text_type, int2, int4, int8, timestamptz, as_i16, as_i32, as_i64, as_string, as_bytes,
  Server, get_column,
}
use chain_lens.Api.{Hex, ApiError, bad_request, not_found, service_unavailable}

pub record BlockResponse : Type 0 where
  pub number : ℕ
  pub hash : Bytes
  pub parent_hash : Bytes
  pub timestamp : Bytes
  pub miner : Bytes
  pub gas_used : ℕ
  pub gas_limit : ℕ
  pub base_fee : Option Bytes
  pub tx_count : ℕ

pub record TransactionResponse : Type 0 where
  pub hash : Bytes
  pub block_number : ℕ
  pub tx_index : ℕ
  pub from_addr : Bytes
  pub to_addr : Option Bytes
  pub value : Bytes
  pub nonce : ℕ
  pub tx_type : ℕ
  pub gas_limit : ℕ
  pub gas_price : Option Bytes
  pub status : Option ℕ
  pub gas_used : ℕ

pub record StatusResponse : Type 0 where
  pub last_indexed_number : Option ℕ
  pub finalized_number : Option ℕ
  pub lag : Option ℤ

-- `parse::<i64>`, and what the server writes for a time and for a `NUMERIC`.
pub record Notations : Type 0 where
  pub parse_i64 : Bytes → Option ℤ
  pub show_time : ℕ → Bytes
  pub show_numeric : ℕ → Bytes

-- `fetch_optional` on a key.
unfoldable pub find_row : {A : Type 0} → (A → Bool) → List A → Option A
find_row p [] = none
find_row p (x ∷ xs) = if p x then some x else find_row p xs

abbrev pub equals : ℕ → ℤ → Bool
equals n (pos m) = n == m
equals n (negsuc m) = Bool.false

module _ {F : Type 0} (server : Server F) (hex : Hex) (notes : Notations) where
  -- The columns of a block, with the types of migrations/0001_initial.sql.
  unfoldable pub block_response : Block → Outcome ApiError BlockResponse
  unfolding get_column
  block_response b = do
    number ← get_column server as_i64 int8 b.number
    hash ← get_column server as_bytes bytea b.hash
    parent_hash ← get_column server as_bytes bytea b.parent_hash
    timestamp ← get_column server as_string timestamptz (notes.show_time b.timestamp)
    miner ← get_column server as_bytes bytea b.miner
    gas_used ← get_column server as_i64 int8 b.gas_used
    gas_limit ← get_column server as_i64 int8 b.gas_limit
    base_fee ←
        get_column server as_string text_type (Option.map notes.show_numeric b.base_fee_per_gas)
    tx_count ← get_column server as_i32 int4 b.tx_count
    ok (record {
      number = number;
      hash = hex.encode hash;
      parent_hash = hex.encode parent_hash;
      timestamp = timestamp;
      miner = hex.encode miner;
      gas_used = gas_used;
      gas_limit = gas_limit;
      base_fee = base_fee;
      tx_count = tx_count;
    })

  -- The query: by number if the text is one, or else by hash.
  unfoldable pub find_block : Db → Bytes → Outcome ApiError (Option Block)
  unfolding find_row
  find_block db number_or_hash = elim (notes.parse_i64 number_or_hash) [
    | some number ↦ ok (find_row (λ (b : Block). equals b.number number) db.blocks)
    | none ↦ do
      hash_bytes ← ok_or (hex.decode number_or_hash) bad_request
      ok (find_row (λ (b : Block). bytes_eq b.hash hash_bytes) db.blocks)
  ]

  unfoldable pub get_block : Db → Bytes → Outcome ApiError BlockResponse
  unfolding find_block block_response
  get_block db number_or_hash = do
    row ← find_block db number_or_hash
    block ← ok_or row not_found
    block_response block

  unfoldable pub transaction_response : Transaction → Outcome ApiError TransactionResponse
  unfolding get_column
  transaction_response t = do
    hash ← get_column server as_bytes bytea t.hash
    block_number ← get_column server as_i64 int8 t.block_number
    tx_index ← get_column server as_i32 int4 t.tx_index
    from_addr ← get_column server as_bytes bytea t.from
    to_addr ← get_column server as_bytes bytea t.to
    value ← get_column server as_string text_type (notes.show_numeric t.value)
    nonce ← get_column server as_i64 int8 t.nonce
    tx_type ← get_column server as_i16 int2 t.tx_type
    gas_limit ← get_column server as_i64 int8 t.gas_limit
    gas_price ← get_column server as_string text_type (Option.map notes.show_numeric t.gas_price)
    status ← get_column server as_i16 int2 t.status
    gas_used ← get_column server as_i64 int8 t.gas_used
    ok (record {
      hash = hex.encode hash;
      block_number = block_number;
      tx_index = tx_index;
      from_addr = hex.encode from_addr;
      to_addr = Option.map hex.encode to_addr;
      value = value;
      nonce = nonce;
      tx_type = tx_type;
      gas_limit = gas_limit;
      gas_price = gas_price;
      status = status;
      gas_used = gas_used;
    })

  unfoldable pub get_transaction : Db → Bytes → Outcome ApiError TransactionResponse
  unfolding find_row transaction_response
  get_transaction db hash = do
    hash_bytes ← ok_or (hex.decode hash) bad_request
    t ← ok_or (find_row (λ (t : Transaction). bytes_eq t.hash hash_bytes) db.transactions) not_found
    transaction_response t

-- `health`, from whether the query `SELECT 1` succeeds: the text of the field `status`.
unfoldable pub health : (db_ok : Bool) → Outcome ApiError Bool
health db_ok = if db_ok then ok db_ok else err service_unavailable

-- `l - f` on `i64`, of numbers that are not negative.
abbrev pub difference : ℕ → ℕ → ℤ
difference l f = if leb f l then pos (l - f) else negsuc (f - l - 1)

-- The `lag` of `status`.
unfoldable pub lag_of : Option ℕ → Option ℕ → Option ℤ
lag_of (some l) (some f) = some (difference l f)
lag_of (some l) none = some (pos l)
lag_of none _ = none

-- `finalized_number` is a column that nothing writes.
unfoldable pub status : Db → (finalized_number : Option ℕ) → StatusResponse
unfolding lag_of
status db finalized_number = record {
  last_indexed_number = db.last_indexed_number;
  finalized_number = finalized_number;
  lag = lag_of db.last_indexed_number finalized_number;
}
