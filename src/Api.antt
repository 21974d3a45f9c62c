-- ===== src/Api.antt =====
-- The pages that src/api/handlers.rs returns: the transactions of an address and the events of a
-- contract. The hexadecimal notation and the sorting of the database are parameters; a connection
-- that fails is left out.
pub mod Pages
pub mod Answers
pub mod Reads
pub mod Served
pub mod Analyses
pub mod Access
pub mod Effects
pub mod Unstored
pub mod Lookups
use mathlib.Core.Option
use chain_lens.Base.{
  ℕ, ◌-◌, ◌^◌, ◌≤◌, ◌≡◌, ◌↔◌, Option, none, some, List, [], ◌∷◌, map, Bool, true, false, ◌&&◌, ◌||◌,
  ltb, leb, ◌==◌, min, length, take, keep, bytes_eq, All, In, Outcome, ok, err, ◌>>=◌, ok_or,
  unwrap_or, ℤ, pos, negsuc,
}
use chain_lens.Domain.{Bytes, Log}
use chain_lens.Store.Db.{Db, AddressTransaction}

-- `hex::encode` and `hex::decode`.
pub record Hex : Type 0 where
  pub encode : Bytes → Bytes
  pub decode : Bytes → Option Bytes

-- The status codes of the errors.
pub data ApiError : Type 0 where
  bad_request internal_server_error not_found service_unavailable : ApiError

abbrev pub min_z : ℤ → ℕ → ℤ
min_z (pos n) m = pos (min n m)
min_z (negsuc n) m = negsuc n

abbrev pub i64_max : ℤ
i64_max = pos (2 ^ 63 - 1)

-- Comparisons of a column with a bound parameter: `n < bound`, `n <= bound` and `n >= bound`.
abbrev pub below : ℕ → ℤ → Bool
below n (pos bound) = ltb n bound
below n (negsuc _) = false

abbrev pub at_most : ℕ → ℤ → Bool
at_most n (pos bound) = leb n bound
at_most n (negsuc _) = false

abbrev pub at_least : ℕ → ℤ → Bool
at_least n (pos bound) = leb bound n
at_least n (negsuc _) = true

-- `ORDER BY first DESC, second DESC`: that a row with the key `a` may stand before one with `b`.
abbrev pub descends : ℕ × ℕ → ℕ × ℕ → Bool
descends a b = ltb b.0 a.0 || ((a.0 == b.0) && leb b.1 a.1)

abbrev pub Descending : {A : Type 0} → (A → ℕ × ℕ) → List A → Type 0
Descending key [] = Unit
Descending key (x ∷ xs) = All (λ y. descends (key x) (key y) ≡ true) xs × Descending key xs

-- What SQL says of ORDER BY: the same rows, as many of them, and in order. The order of rows with
-- the same key is open.
pub record OrderBy (A : Type 0) (key : A → ℕ × ℕ) : Type 0 where
  pub sort : List A → List A
  pub members : (rows : List A) (r : A) → In r (sort rows) ↔ In r rows
  pub size : (rows : List A) → length (sort rows) ≡ length rows
  pub ordered : (rows : List A) → Descending key (sort rows)

-- LIMIT, which PostgreSQL refuses when it is negative.
unfoldable pub limited : {A : Type 0} → ℤ → List A → Outcome ApiError (List A)
limited (pos n) rows = ok (take n rows)
limited (negsuc n) rows = err internal_server_error

pub record AddressQuery : Type 0 where
  pub limit : Option ℤ
  pub before_block : Option ℤ

pub record AddressTransactionResponse : Type 0 where
  pub tx_hash : Bytes
  pub block_number : ℕ
  pub tx_index : ℕ
  pub direction : ℕ

pub record EventQuery : Type 0 where
  pub topic0 : Option Bytes
  pub from_block : Option ℤ
  pub to_block : Option ℤ
  pub limit : Option ℤ

pub record LogResponse : Type 0 where
  pub block_number : ℕ
  pub log_index : ℕ
  pub tx_hash : Bytes
  pub address : Bytes
  pub topic0 : Option Bytes
  pub topic1 : Option Bytes
  pub topic2 : Option Bytes
  pub topic3 : Option Bytes

abbrev pub tx_key : AddressTransaction → ℕ × ℕ
tx_key r = (r.block_number, r.tx_index)

abbrev pub log_key : Log → ℕ × ℕ
log_key r = (r.block_number, r.log_index)

-- `query.limit.unwrap_or(50).min(500)`
unfoldable pub page_limit : Option ℤ → ℤ
page_limit limit = min_z (unwrap_or limit (pos 50)) 500

-- `WHERE address = $1 AND block_number < $2`
unfoldable pub of_address : Bytes → ℤ → AddressTransaction → Bool
of_address address before_block r = bytes_eq r.address address && below r.block_number before_block

-- `$4::bytea IS NULL OR topic0 = $4`
unfoldable pub topic_matches : Option Bytes → Option Bytes → Bool
topic_matches none topic0 = true
topic_matches (some t) none = false
topic_matches (some t) (some u) = bytes_eq u t

unfoldable pub of_contract : Bytes → (from_block to_block : ℤ) → Option Bytes → Log → Bool
unfolding topic_matches
of_contract address from_block to_block topic0 r =
    bytes_eq r.address address
    && (at_least r.block_number from_block
        && (at_most r.block_number to_block && topic_matches topic0 r.topic0))

-- `query.topic0.map(|t| from_hex(&t)).transpose()`
unfoldable pub decode_topic : Hex → Option Bytes → Outcome ApiError (Option Bytes)
decode_topic hex none = ok none
decode_topic hex (some t) = do u ← ok_or (hex.decode t) bad_request; ok (some u)

unfoldable pub address_transaction_response : Hex → AddressTransaction → AddressTransactionResponse
address_transaction_response hex r = record {
  tx_hash = hex.encode r.tx_hash;
  block_number = r.block_number;
  tx_index = r.tx_index;
  direction = r.direction;
}

unfoldable pub log_response : Hex → Log → LogResponse
log_response hex r = record {
  block_number = r.block_number;
  log_index = r.log_index;
  tx_hash = hex.encode r.tx_hash;
  address = hex.encode r.address;
  topic0 = Option.map hex.encode r.topic0;
  topic1 = Option.map hex.encode r.topic1;
  topic2 = Option.map hex.encode r.topic2;
  topic3 = Option.map hex.encode r.topic3;
}

unfoldable pub get_address_transactions :
    Hex
    → OrderBy AddressTransaction tx_key
    → Db
    → (address : Bytes) → AddressQuery
    → Outcome ApiError (List AddressTransactionResponse)
unfolding page_limit limited of_address address_transaction_response
get_address_transactions hex order db address query = do
  address_bytes ← ok_or (hex.decode address) bad_request
  let before_block = unwrap_or query.before_block i64_max
  rows ←
      limited (page_limit query.limit)
        (order.sort (keep (of_address address_bytes before_block) db.address_transactions))
  ok (map (address_transaction_response hex) rows)

unfoldable pub get_contract_events :
    Hex
    → OrderBy Log log_key
    → Db
    → (address : Bytes) → EventQuery
    → Outcome ApiError (List LogResponse)
unfolding page_limit limited of_contract decode_topic log_response
get_contract_events hex order db address query = do
  address_bytes ← ok_or (hex.decode address) bad_request
  let from_block = unwrap_or query.from_block (pos 0)
  let to_block = unwrap_or query.to_block i64_max
  topic0_bytes ← decode_topic hex query.topic0
  rows ←
      limited (page_limit query.limit)
        (order.sort (keep (of_contract address_bytes from_block to_block topic0_bytes) db.logs))
  ok (map (log_response hex) rows)
