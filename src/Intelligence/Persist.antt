-- ===== src/Intelligence/Persist.antt =====
-- The rows that src/intelligence/persist.rs writes. The notations of numbers and bytes, the driver
-- and the server are parameters; a time that the server fills in (`now()`) is left out.
pub mod Statements
pub mod Actions
pub mod Rows
pub mod Explained
pub mod Rejected
use Prim.Native.String.{String}
use chain_lens.Base.{
  ℕ, ◌+◌, ◌-◌, ◌^◌, Option, none, some, List, [], ◌∷◌, Bool, length, min, text, trim_0x, unwrap_or,
  ℤ, pos, Outcome, ok, ok_or, ◌>>=◌,
}
use chain_lens.Domain.{Bytes}
use chain_lens.Intelligence.Actions.{
  ActionType, eth_transfer, erc20_transfer, erc20_approval, erc721_transfer, erc1155_transfer,
  contract_creation, contract_call, swap, unknown, TransactionAction, Formats,
}
use chain_lens.Intelligence.Anomalies.{
  AnomalyType, large_transfer, activity_spike, new_wallet_high_value, contract_interaction_spike,
  coordinated_activity, Severity, low, medium, high, critical, Anomaly,
}
use chain_lens.Intelligence.Mev.{
  MevType, possible_sandwich, possible_arbitrage, possible_liquidation, priority_fee_anomaly,
  repeated_protocol_interaction, MevEvent,
}
use chain_lens.Intelligence.Mev.Analysis.{BlockAnalytics}
use chain_lens.Sql.{
  bytea, text_type, varchar, numeric, int4, int8, float8, boolean, jsonb, timestamptz, bytea_array,
  text_array, vec_u8, string, int_64, int_32, float_64, flag, json, vec_vec_u8, vec_string,
  SqlError, protocol, TableName, do_nothing, do_update, Insert, transaction_actions, address_stats,
  contract_profiles, anomalies, mev_events, block_analytics, address_relationships,
}

-- src/intelligence/address.rs
pub record AddressIntelligence : Type 0 where
  pub address : Bytes
  pub first_seen : Option Bytes
  pub last_active : Option Bytes
  pub total_transactions : ℤ
  pub total_eth_sent : Bytes
  pub total_eth_received : Bytes
  pub unique_contracts_called : ℤ
  pub unique_callers : ℤ
  pub token_transfers_sent : ℤ
  pub token_transfers_received : ℤ
  pub behavior_classifications : List Bytes
  pub activity_level : Bytes

pub record ActivityPoint : Type 0 where
  pub block_number : ℤ
  pub timestamp : Bytes
  pub tx_count : ℤ
  pub event_count : ℤ

-- src/intelligence/contract.rs
pub record ContractIntelligence : Type 0 where
  pub address : Bytes
  pub first_seen : Option Bytes
  pub deployment_block : Option ℤ
  pub creator : Option Bytes
  pub deployment_tx : Option Bytes
  pub total_transactions : ℤ
  pub unique_callers : ℤ
  pub unique_contracts_called : ℤ
  pub token_transfers : ℤ
  pub event_count : ℤ
  pub activity_over_time : List ActivityPoint
  pub function_selectors : List Bytes
  pub is_token : Bool
  pub is_nft : Bool

-- `format!("{:?}", action_type).to_lowercase()`
unfoldable pub action_name : ActionType → Bytes
action_name eth_transfer = text "ethtransfer"
action_name erc20_transfer = text "erc20transfer"
action_name erc20_approval = text "erc20approval"
action_name erc721_transfer = text "erc721transfer"
action_name erc1155_transfer = text "erc1155transfer"
action_name contract_creation = text "contractcreation"
action_name contract_call = text "contractcall"
action_name swap = text "swap"
action_name unknown = text "unknown"

unfoldable pub anomaly_name : AnomalyType → Bytes
anomaly_name large_transfer = text "largetransfer"
anomaly_name activity_spike = text "activityspike"
anomaly_name new_wallet_high_value = text "newwallethighvalue"
anomaly_name contract_interaction_spike = text "contractinteractionspike"
anomaly_name coordinated_activity = text "coordinatedactivity"

unfoldable pub severity_name : Severity → Bytes
severity_name low = text "low"
severity_name medium = text "medium"
severity_name high = text "high"
severity_name critical = text "critical"

unfoldable pub mev_name : MevType → Bytes
mev_name possible_sandwich = text "possiblesandwich"
mev_name possible_arbitrage = text "possiblearbitrage"
mev_name possible_liquidation = text "possibleliquidation"
mev_name priority_fee_anomaly = text "priorityfeeanomaly"
mev_name repeated_protocol_interaction = text "repeatedprotocolinteraction"

-- `i32::try_from(n).unwrap_or(i32::MAX)`
unfoldable pub as_i32 : ℕ → ℕ
as_i32 n = min n (2 ^ 31 - 1)

-- `.and_then(|a| a.parse::<i64>().ok())`
unfoldable pub parsed : (Bytes → Option ℤ) → Option Bytes → Option ℤ
parsed parse none = none
parsed parse (some a) = parse a

module _ (fmt : Formats) where
  -- `hex::decode_hex(s.trim_start_matches("0x"))`
  unfoldable pub decode_hex : Bytes → Option Bytes
  decode_hex s = fmt.hex_decode (trim_0x s)

  -- With the error that each call puts in its place.
  unfoldable pub decode_or : String → Bytes → Outcome SqlError Bytes
  unfolding decode_hex
  decode_or message s = ok_or (decode_hex s) (protocol (text message))

  -- `.map(…).transpose()`
  unfoldable pub decode_opt : String → Option Bytes → Outcome SqlError (Option Bytes)
  unfolding decode_or
  decode_opt message none = ok none
  decode_opt message (some s) = do bytes ← decode_or message s; ok (some bytes)

  -- `filter_map(|a| hex::decode_hex(…).ok())`
  unfoldable pub decodable : List Bytes → List Bytes
  unfolding decode_hex
  decodable [] = []
  decodable (s ∷ rest) = elim (decode_hex s) [
    | none ↦ decodable rest
    | some bytes ↦ bytes ∷ decodable rest
  ]

  module _ {F : Type 0} where
    -- The statement for an action of a transaction with the hash `tx_hash`.
    unfoldable pub action_insert :
        (Bytes → Option ℤ) → (tx_hash : Bytes) → TransactionAction → Outcome SqlError (Insert F)
    unfolding decode_or decode_opt action_name parsed
    action_insert parse_i64 tx_hash action = do
      from_bytes ← decode_or "invalid from address" action.from
      to_bytes ← decode_opt "invalid to address" action.to
      token_bytes ← decode_opt "invalid token address" action.token_address
      spender_bytes ← decode_opt "invalid spender address" action.spender
      ok (record {
        table = transaction_actions;
        columns = bytea ∷ varchar ∷ bytea ∷ bytea ∷ bytea ∷ numeric ∷ bytea ∷ text_type ∷ [];
        values =
            vec_u8 (some tx_hash)
            ∷ string (some (action_name action.action_type))
            ∷ vec_u8 (some from_bytes)
            ∷ vec_u8 to_bytes
            ∷ vec_u8 token_bytes
            ∷ int_64 (parsed parse_i64 action.amount)
            ∷ vec_u8 spender_bytes
            ∷ string (some action.description)
            ∷ [];
        conflict = do_nothing;
      })

    unfoldable pub address_insert : AddressIntelligence → Outcome SqlError (Insert F)
    unfolding decode_or
    address_insert intel = do
      addr_bytes ← decode_or "invalid address" intel.address
      ok (record {
        table = address_stats;
        columns =
            bytea ∷ timestamptz ∷ timestamptz ∷ int8 ∷ numeric ∷ numeric ∷ int8 ∷ int8 ∷ int8 ∷ int8
            ∷ text_array ∷ varchar ∷ [];
        values =
            vec_u8 (some addr_bytes)
            ∷ string intel.first_seen
            ∷ string intel.last_active
            ∷ int_64 (some intel.total_transactions)
            ∷ string (some intel.total_eth_sent)
            ∷ string (some intel.total_eth_received)
            ∷ int_64 (some intel.unique_contracts_called)
            ∷ int_64 (some intel.unique_callers)
            ∷ int_64 (some intel.token_transfers_sent)
            ∷ int_64 (some intel.token_transfers_received)
            ∷ vec_string intel.behavior_classifications
            ∷ string (some intel.activity_level)
            ∷ [];
        conflict = do_update 1;
      })

    unfoldable pub contract_insert : ContractIntelligence → Outcome SqlError (Insert F)
    unfolding decode_or decode_opt
    contract_insert intel = do
      addr_bytes ← decode_or "invalid address" intel.address
      creator_bytes ← decode_opt "invalid creator" intel.creator
      deploy_tx_bytes ← decode_opt "invalid deploy tx" intel.deployment_tx
      ok (record {
        table = contract_profiles;
        columns =
            bytea ∷ timestamptz ∷ int8 ∷ bytea ∷ bytea ∷ int8 ∷ int8 ∷ int8 ∷ int8 ∷ int8
            ∷ text_array ∷ boolean ∷ boolean ∷ [];
        values =
            vec_u8 (some addr_bytes)
            ∷ string intel.first_seen
            ∷ int_64 intel.deployment_block
            ∷ vec_u8 creator_bytes
            ∷ vec_u8 deploy_tx_bytes
            ∷ int_64 (some intel.total_transactions)
            ∷ int_64 (some intel.unique_callers)
            ∷ int_64 (some intel.unique_contracts_called)
            ∷ int_64 (some intel.token_transfers)
            ∷ int_64 (some intel.event_count)
            ∷ vec_string intel.function_selectors
            ∷ flag intel.is_token
            ∷ flag intel.is_nft
            ∷ [];
        conflict = do_update 1;
      })
