-- ===== src/Intelligence/Mev/Analysis.antt =====
-- `analyze_block` of src/intelligence/mev.rs and the detectors that it calls. What the queries
-- return, errors included, is a parameter; the columns of a block have the types of
-- migrations/0001_initial.sql.
use chain_lens.Base.{ℕ, ◌++◌, Option, List, [], if◌then◌else◌, map, ℤ, Outcome, ok, ok_or, ◌>>=◌}
use chain_lens.Domain.{Bytes, B256, Address, Transaction}
use chain_lens.Intelligence.Anomalies.{Floats}
use chain_lens.Intelligence.Mev.{
  MevEvent, SenderRow, FeeRow, hex_text, detect_sandwich_patterns, arbitrage_event, fee_event,
  repeated_event, average_fee,
}
use chain_lens.Sql.{SqlError, row_not_found, int4, int8, as_i64, Server, get_column}

pub record BlockAnalytics (F : Type 0) : Type 0 where
  pub block_number : ℕ
  pub timestamp : Bytes
  pub tx_count : ℤ
  pub gas_used : ℤ
  pub gas_limit : ℤ
  pub base_fee : Option Bytes
  pub total_priority_fees : Bytes
  pub avg_priority_fee : Bytes
  pub max_priority_fee : Bytes
  pub mev_events : List (MevEvent F)
  pub unusual_transactions : List Bytes

-- What the table holds of a block.
pub record StoredBlock : Type 0 where
  pub timestamp : Bytes
  pub tx_count : ℤ
  pub gas_used : ℤ
  pub gas_limit : ℤ
  pub base_fee : Option Bytes

pub record FeeTotals : Type 0 where
  pub total : Bytes
  pub avg : Bytes
  pub max : Bytes

pub record MevQueries : Type 0 where
  pub block : ℕ → Outcome SqlError (Option StoredBlock)
  pub priority_fees : ℕ → Outcome SqlError FeeTotals
  pub transactions : ℕ → Outcome SqlError (List Transaction)
  pub same_addr_txs : ℕ → Outcome SqlError (List SenderRow)
  pub avg_fee : ℕ → Outcome SqlError Bytes
  pub high_fee_txs : ℕ → (threshold : Bytes) → Outcome SqlError (List FeeRow)
  pub repeated : ℕ → Outcome SqlError (List (Address × ℕ))
  pub large_value : ℕ → Outcome SqlError (List B256)

module _ {F : Type 0} (f : Floats F) (q : MevQueries) (block_number : ℕ) where
  module _ (timestamp : Bytes) where
    unfoldable pub sandwiches : Outcome SqlError (List (MevEvent F))
    unfolding detect_sandwich_patterns
    sandwiches = do
      txs ← q.transactions block_number
      ok (detect_sandwich_patterns f block_number timestamp txs)

    unfoldable pub detect_arbitrage_patterns : Outcome SqlError (List (MevEvent F))
    unfolding arbitrage_event
    detect_arbitrage_patterns = do
      rows ← q.same_addr_txs block_number
      ok (map (arbitrage_event f block_number timestamp) rows)

    -- The `if avg > 0.0` of the detector.
    unfoldable pub high_fees : (avg_str : Bytes) → Outcome SqlError (List (MevEvent F))
    unfolding fee_event average_fee
    high_fees avg_str =
        let avg = average_fee f avg_str in
        if f.gt avg (f.of_nat 0)
        then (do
          rows ← q.high_fee_txs block_number (f.show (f.mul avg (f.of_nat 5)))
          ok (map (fee_event f block_number timestamp avg_str) rows))
        else ok []

    unfoldable pub detect_priority_fee_anomalies : Outcome SqlError (List (MevEvent F))
    unfolding high_fees
    detect_priority_fee_anomalies = do avg_str ← q.avg_fee block_number; high_fees avg_str

    unfoldable pub detect_repeated_protocol_interactions : Outcome SqlError (List (MevEvent F))
    unfolding repeated_event
    detect_repeated_protocol_interactions = do
      rows ← q.repeated block_number
      ok (map (λ row. repeated_event f block_number timestamp row.0 row.1) rows)

    -- The four detectors, their events one after the other.
    unfoldable pub all_events : Outcome SqlError (List (MevEvent F))
    unfolding sandwiches detect_arbitrage_patterns detect_priority_fee_anomalies
        detect_repeated_protocol_interactions
    all_events = do
      found ← sandwiches
      arbitrages ← detect_arbitrage_patterns
      fees ← detect_priority_fee_anomalies
      repeats ← detect_repeated_protocol_interactions
      ok (found ++ arbitrages ++ fees ++ repeats)

  unfoldable pub detect_unusual_transactions : Outcome SqlError (List Bytes)
  unfolding hex_text
  detect_unusual_transactions = do rows ← q.large_value block_number; ok (map (hex_text f) rows)

  unfoldable pub analyze_block : Server F → Outcome SqlError (BlockAnalytics F)
  unfolding get_column all_events detect_unusual_transactions
  analyze_block server = do
    row ← q.block block_number
    block ← ok_or row row_not_found
    tx_count ← get_column server as_i64 int4 block.tx_count
    gas_used ← get_column server as_i64 int8 block.gas_used
    gas_limit ← get_column server as_i64 int8 block.gas_limit
    fees ← q.priority_fees block_number
    mev_events ← all_events block.timestamp
    unusual_txs ← detect_unusual_transactions
    ok (record {
      block_number = block_number;
      timestamp = block.timestamp;
      tx_count = tx_count;
      gas_used = gas_used;
      gas_limit = gas_limit;
      base_fee = block.base_fee;
      total_priority_fees = fees.total;
      avg_priority_fee = fees.avg;
      max_priority_fee = fees.max;
      mev_events = mev_events;
      unusual_transactions = unusual_txs;
    })
