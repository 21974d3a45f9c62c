-- ===== src/Store/Db.antt =====
-- The database as the store and the rollback see it: the tables of migrations/ with the columns
-- that the indexer writes or that a deletion reads. A `BIGINT` or an `INT` holds what the code
-- clamps into it; a `NUMERIC` holds the number that its text spells.
use chain_lens.Base.{ℕ, ◌-◌, ◌^◌, Option, List, Bool, ◌&&◌, ◌==◌, if◌then◌else◌, ltb, bytes_eq}
use chain_lens.Domain.{Bytes, B256, Address, Block, Transaction, Log, TokenTransfer}

abbrev pub i64_max : ℕ
i64_max = 2 ^ 63 - 1

abbrev pub i32_max : ℕ
i32_max = 2 ^ 31 - 1

-- `i64::try_from(n).unwrap_or(i64::MAX)`
unfoldable pub to_i64 : ℕ → ℕ
to_i64 n = if ltb i64_max n then i64_max else n

-- `i32::try_from(n).unwrap_or(i32::MAX)`
unfoldable pub to_i32 : ℕ → ℕ
to_i32 n = if ltb i32_max n then i32_max else n

-- `direction` is 0 for the sender, 1 for the receiver.
pub record AddressTransaction : Type 0 where
  pub address : Address
  pub block_number : ℕ
  pub tx_index : ℕ
  pub tx_hash : B256
  pub direction : ℕ

pub record ReorgRow : Type 0 where
  pub common_ancestor_number : ℕ
  pub depth : ℕ
  pub orphaned_from : ℕ
  pub orphaned_to : ℕ
  pub orphaned_hashes : List Bytes

pub record AnomalyRow : Type 0 where
  pub id : ℕ
  pub block_number : Option ℕ
  pub tx_hash : Option B256

-- A row of `mev_events` or `block_analytics`.
pub record BlockFact : Type 0 where
  pub id : ℕ
  pub block_number : ℕ

pub record AddressStats : Type 0 where
  pub address : Address
  pub updated_at : ℕ

pub record ContractProfile : Type 0 where
  pub address : Address
  pub deployment_block : Option ℕ
  pub updated_at : ℕ

pub record ActionRow : Type 0 where
  pub id : ℕ
  pub tx_hash : B256

-- `last_indexed_number` and `last_indexed_hash` are the row of `indexer_state`.
pub record Db : Type 0 where
  pub blocks : List Block
  pub transactions : List Transaction
  pub logs : List Log
  pub token_transfers : List TokenTransfer
  pub address_transactions : List AddressTransaction
  pub last_indexed_number : Option ℕ
  pub last_indexed_hash : Option Bytes
  pub reorgs : List ReorgRow
  pub anomalies : List AnomalyRow
  pub mev_events : List BlockFact
  pub block_analytics : List BlockFact
  pub transaction_actions : List ActionRow
  pub address_stats : List AddressStats
  pub contract_profiles : List ContractProfile

-- The keys of the `ON CONFLICT` clauses.
unfoldable pub same_block : Block → Block → Bool
same_block a b = a.number == b.number

unfoldable pub same_transaction : Transaction → Transaction → Bool
same_transaction a b = bytes_eq a.hash b.hash

unfoldable pub same_log : Log → Log → Bool
same_log a b = a.block_number == b.block_number && a.log_index == b.log_index

unfoldable pub same_token_transfer : TokenTransfer → TokenTransfer → Bool
same_token_transfer a b = a.block_number == b.block_number && a.log_index == b.log_index

unfoldable pub same_address_transaction : AddressTransaction → AddressTransaction → Bool
same_address_transaction a b =
    bytes_eq a.address b.address
    && a.block_number == b.block_number
    && a.tx_index == b.tx_index
    && a.direction == b.direction
