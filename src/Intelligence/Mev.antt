-- ===== src/Intelligence/Mev.antt =====
-- Patterns of extracted value in a block: src/intelligence/mev.rs, on the rows that its queries
-- return. Floating-point numbers and the notations of numbers are parameters.
pub mod Sandwiches
pub mod Analysis
pub mod Block
use chain_lens.Base.{
  ℕ, ◌++◌, Option, none, some, List, [], ◌∷◌, Bool, true, false, ◌&&◌, if◌then◌else◌, bytes_eq, ltb,
  length, map, text, unwrap_or,
}
use chain_lens.Domain.{Bytes, B256, Address, Transaction}
use chain_lens.Intelligence.Anomalies.{Floats}

pub data MevType : Type 0 where
  possible_sandwich possible_arbitrage possible_liquidation priority_fee_anomaly : MevType
  repeated_protocol_interaction : MevType

pub record MevEvent (F : Type 0) : Type 0 where
  pub id : ℕ
  pub mev_type : MevType
  pub severity : Bytes
  pub block_number : ℕ
  pub timestamp : Bytes
  pub description : Bytes
  pub involved_addresses : List Bytes
  pub involved_transactions : List Bytes
  pub estimated_value : Option Bytes
  pub confidence : F

-- `prev_to == next_to`
unfoldable pub same_receiver : Option Address → Option Address → Bool
same_receiver none none = true
same_receiver none (some b) = false
same_receiver (some a) none = false
same_receiver (some a) (some b) = bytes_eq a b

-- A row of the query that groups by sender.
pub record SenderRow : Type 0 where
  pub from_addr : Address
  pub tx_count : ℕ
  pub hashes : List B256

-- A row of the query for high priority fees.
pub record FeeRow : Type 0 where
  pub hash : B256
  pub from_addr : Address
  pub max_priority_fee_per_gas : Bytes

module _ {F : Type 0} (f : Floats F) where
  -- `format!("0x{}", hex::encode(bytes))`
  unfoldable pub hex_text : Bytes → Bytes
  hex_text bytes = text "0x" ++ f.hex_encode bytes

  -- The decimal fraction `n / 10`.
  abbrev pub tenths : ℕ → F
  tenths n = f.div (f.of_nat n) (f.of_nat 10)

  module _ (block_number : ℕ) (timestamp : Bytes) where
    -- The fields that all events of a block share.
    abbrev pub block_event :
        MevType
        → (severity description : Bytes) → (addresses hashes : List Bytes) → (confidence : F)
        → MevEvent F
    block_event mev_type severity description addresses hashes confidence = record {
      id = 0;
      mev_type = mev_type;
      severity = severity;
      block_number = block_number;
      timestamp = timestamp;
      description = description;
      involved_addresses = addresses;
      involved_transactions = hashes;
      estimated_value = none;
      confidence = confidence;
    }

    unfoldable pub sandwich_event : Transaction → Transaction → Transaction → MevEvent F
    unfolding hex_text
    sandwich_event prev curr next =
        block_event possible_sandwich (text "high")
          (text "Possible sandwich attack detected: same address ("
            ++ hex_text prev.from
            ++ text ") sent transactions before and after a swap")
          (hex_text prev.from ∷ [])
          (hex_text prev.hash ∷ hex_text curr.hash ∷ hex_text next.hash ∷ []) (tenths 6)

    -- The loop over the rows with a row on either side.
    unfoldable pub sandwich_patterns : List Transaction → List (MevEvent F)
    unfolding sandwich_event same_receiver
    sandwich_patterns [] = []
    sandwich_patterns (prev ∷ []) = []
    sandwich_patterns (prev ∷ curr ∷ []) = []
    sandwich_patterns (prev ∷ curr ∷ next ∷ txs) =
        let rest = sandwich_patterns (curr ∷ next ∷ txs) in
        if bytes_eq prev.from next.from && same_receiver prev.to next.to
        then sandwich_event prev curr next ∷ rest
        else rest

    unfoldable pub detect_sandwich_patterns : List Transaction → List (MevEvent F)
    unfolding sandwich_patterns
    detect_sandwich_patterns txs = if ltb (length txs) 3 then [] else sandwich_patterns txs

    unfoldable pub arbitrage_event : SenderRow → MevEvent F
    unfolding hex_text
    arbitrage_event row =
        block_event possible_arbitrage (text "medium")
          (text "Possible arbitrage: address "
            ++ hex_text row.from_addr
            ++ text " made "
            ++ f.show_nat row.tx_count
            ++ text " transactions in same block")
          (hex_text row.from_addr ∷ []) (map hex_text row.hashes) (tenths 4)

    unfoldable pub fee_event : (avg_str : Bytes) → FeeRow → MevEvent F
    unfolding hex_text
    fee_event avg_str row =
        block_event priority_fee_anomaly (text "low")
          (text "Transaction paid "
            ++ row.max_priority_fee_per_gas
            ++ text " priority fee, significantly above average ("
            ++ avg_str
            ++ text ")")
          (hex_text row.from_addr ∷ []) (hex_text row.hash ∷ []) (tenths 5)

    unfoldable pub repeated_event : Address → (interaction_count : ℕ) → MevEvent F
    unfolding hex_text
    repeated_event to_addr count =
        block_event repeated_protocol_interaction (text "low")
          (text "Contract "
            ++ hex_text to_addr
            ++ text " was called "
            ++ f.show_nat count
            ++ text " times in single block")
          (hex_text to_addr ∷ []) [] (tenths 3)

  -- `avg_str.parse().unwrap_or(0.0)`
  unfoldable pub average_fee : Bytes → F
  average_fee avg_str = unwrap_or (f.parse avg_str) (f.of_nat 0)
