-- ===== src/Rpc.antt =====
-- The RPC boundary: src/rpc/mod.rs and src/rpc/types.rs. The JSON-RPC node is not part of the
-- program, so a client is a record of functions: what each request answers.
pub mod Retry
pub mod Quantity
pub mod Http
use chain_lens.Base.{ℕ, Option, List, Bool, true, false, Outcome, ◌||◌, ◌==◌, leb}
use chain_lens.Domain.{Bytes, B256, Address, U256}

-- The texts of error messages, which have no part in any decision of the program: those that the
-- program writes, and any other.
pub data Message : Type 0 where
  block_not_found : ℕ → Message
  receipt_not_found : B256 → Message
  retries_exhausted : Message
  text : Bytes → Message

pub data BlockTag : Type 0 where
  latest safe finalized earliest pending : BlockTag

-- The code of a JSON-RPC error is an `i64`: a sign (`true` for negative) and a magnitude.
pub data RpcError : Type 0 where
  http : ℕ → Message → RpcError
  json_rpc : Bool → ℕ → Message → RpcError
  timeout : RpcError
  connection : Message → RpcError
  deserialize : Message → RpcError

unfoldable pub is_retryable : RpcError → Bool
is_retryable (http status _) = status == 429 || leb 500 status
is_retryable timeout = true
is_retryable (connection _) = true
is_retryable (json_rpc _ _ _) = false
is_retryable (deserialize _) = false

pub record LogResponse : Type 0 where
  pub address : Address
  pub topics : List B256
  pub log_data : Bytes
  pub block_number : ℕ
  pub transaction_hash : B256
  pub transaction_index : ℕ
  pub block_hash : B256
  pub log_index : ℕ
  pub removed : Bool

pub record TransactionResponse : Type 0 where
  pub hash : B256
  pub transaction_index : ℕ
  pub from : Address
  pub to : Option Address
  pub value : U256
  pub nonce : ℕ
  pub gas : ℕ
  pub gas_price : Option U256
  pub input : Bytes
  pub transaction_type : Option ℕ
  pub max_fee_per_gas : Option U256
  pub max_priority_fee_per_gas : Option U256
  pub chain_id : Option U256
  pub v : Option U256
  pub r : Option U256
  pub s : Option U256

pub record ReceiptResponse : Type 0 where
  pub transaction_hash : B256
  pub transaction_index : ℕ
  pub block_hash : B256
  pub block_number : ℕ
  pub from : Address
  pub to : Option Address
  pub cumulative_gas_used : ℕ
  pub gas_used : ℕ
  pub contract_address : Option Address
  pub status : Option ℕ
  pub logs : List LogResponse
  pub transaction_type : Option ℕ
  pub effective_gas_price : Option U256

pub record BlockResponse : Type 0 where
  pub number : ℕ
  pub hash : B256
  pub parent_hash : B256
  pub timestamp : ℕ
  pub miner : Address
  pub gas_used : ℕ
  pub gas_limit : ℕ
  pub base_fee_per_gas : Option ℕ
  pub transactions : List TransactionResponse
  pub size : ℕ

-- The trait `EthClient`.
pub record EthClient : Type 0 where
  pub get_block_by_number : ℕ → Bool → Outcome RpcError (Option BlockResponse)
  pub get_block_by_tag : BlockTag → Bool → Outcome RpcError (Option BlockResponse)
  pub get_block_number : BlockTag → Outcome RpcError ℕ
  pub get_block_receipts : ℕ → Outcome RpcError (List ReceiptResponse)
  pub get_transaction_receipt : B256 → Outcome RpcError (Option ReceiptResponse)
  pub supports_block_receipts : Bool
  pub get_transaction_by_hash : B256 → Outcome RpcError (Option TransactionResponse)
  pub get_logs_for_transaction : B256 → Outcome RpcError (List LogResponse)
