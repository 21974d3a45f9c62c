-- ===== src/Intelligence/Trends.antt =====
-- Counts by day: src/intelligence/trends.rs. What the queries group is a parameter: an error, or
-- for each day the rows of that day; the aggregates are computed from them as the queries say.
pub mod Unread
use chain_lens.Base.{
  ℤ, ℕ, zero, ◌+◌, List, [], ◌∷◌, Bool, if◌then◌else◌, bytes_eq, length, map, keep, text, trim_0x,
  Outcome, ok, ok_or, ◌>>=◌,
}
use chain_lens.Domain.{Bytes}
use chain_lens.Intelligence.Actions.{Formats}
use chain_lens.Sql.{
  SqlError, protocol, SqlType, date, int8, text_type, as_i64, as_string, Server, get_column,
}

pub record AddressTrend : Type 0 where
  pub day : Bytes
  pub tx_count : ℕ
  pub unique_contracts : ℕ
  pub total_value : Bytes

pub record ContractTrend : Type 0 where
  pub day : Bytes
  pub interaction_count : ℕ
  pub unique_callers : ℕ

pub record AnomalyTrend : Type 0 where
  pub day : Bytes
  pub anomaly_count : ℕ
  pub critical_count : ℕ
  pub high_count : ℕ

pub record MevTrend : Type 0 where
  pub day : Bytes
  pub mev_count : ℕ
  pub sandwich_count : ℕ
  pub arbitrage_count : ℕ

-- `COUNT(*) FILTER (WHERE column = value)`
unfoldable pub count_of : Bytes → List Bytes → ℕ
count_of name column = length (keep (λ v. bytes_eq v name) column)

-- `?` in a loop that pushes one item for each row.
unfoldable pub each_row :
    {A B : Type 0} → (A → Outcome SqlError B) → List A → Outcome SqlError (List B)
each_row read [] = ok []
each_row read (row ∷ rows) = read row >>= λ b. each_row read rows >>= λ bs. ok (b ∷ bs)

module _ {F : Type 0} (server : Server F) where
  unfoldable pub address_trend : AddressTrend → Outcome SqlError AddressTrend
  unfolding get_column
  address_trend row = do
    day ← get_column server as_string date row.day
    tx_count ← get_column server as_i64 int8 row.tx_count
    unique_contracts ← get_column server as_i64 int8 row.unique_contracts
    total_value ← get_column server as_string text_type row.total_value
    ok (record {
      day = day;
      tx_count = tx_count;
      unique_contracts = unique_contracts;
      total_value = total_value;
    })

  unfoldable pub contract_trend : ContractTrend → Outcome SqlError ContractTrend
  unfolding get_column
  contract_trend row = do
    day ← get_column server as_string date row.day
    interaction_count ← get_column server as_i64 int8 row.interaction_count
    unique_callers ← get_column server as_i64 int8 row.unique_callers
    ok (record {
      day = day;
      interaction_count = interaction_count;
      unique_callers = unique_callers;
    })

  -- A day with the column `severity` of its anomalies.
  unfoldable pub anomaly_trend : Bytes × List Bytes → Outcome SqlError AnomalyTrend
  unfolding get_column count_of text
  anomaly_trend (detected, severities) = do
    day ← get_column server as_string date detected
    anomaly_count ← get_column server as_i64 int8 (length severities)
    critical_count ← get_column server as_i64 int8 (count_of (text "critical") severities)
    high_count ← get_column server as_i64 int8 (count_of (text "high") severities)
    ok (record {
      day = day;
      anomaly_count = anomaly_count;
      critical_count = critical_count;
      high_count = high_count;
    })

  -- A day with the column `mev_type` of its events.
  unfoldable pub mev_trend : Bytes × List Bytes → Outcome SqlError MevTrend
  unfolding get_column count_of text
  mev_trend (detected, mev_types) = do
    day ← get_column server as_string date detected
    mev_count ← get_column server as_i64 int8 (length mev_types)
    sandwich_count ← get_column server as_i64 int8 (count_of (text "possible_sandwich") mev_types)
    arbitrage_count ← get_column server as_i64 int8 (count_of (text "possible_arbitrage") mev_types)
    ok (record {
      day = day;
      mev_count = mev_count;
      sandwich_count = sandwich_count;
      arbitrage_count = arbitrage_count;
    })

  module _ (fmt : Formats) where
    unfoldable pub get_address_trends :
        (query : Bytes → ℤ → Outcome SqlError (List AddressTrend))
        → (address : Bytes) → (days : ℤ) → Outcome SqlError (List AddressTrend)
    unfolding each_row address_trend
    get_address_trends query address days = do
      addr_bytes ← ok_or (fmt.hex_decode (trim_0x address)) (protocol (text "invalid address"))
      rows ← query addr_bytes days
      each_row address_trend rows

    unfoldable pub get_contract_trends :
        (query : Bytes → ℤ → Outcome SqlError (List ContractTrend))
        → (address : Bytes) → (days : ℤ) → Outcome SqlError (List ContractTrend)
    unfolding each_row contract_trend
    get_contract_trends query address days = do
      addr_bytes ← ok_or (fmt.hex_decode (trim_0x address)) (protocol (text "invalid address"))
      rows ← query addr_bytes days
      each_row contract_trend rows

  unfoldable pub get_anomaly_trends :
      (query : ℤ → Outcome SqlError (List (Bytes × List Bytes)))
      → (days : ℤ) → Outcome SqlError (List AnomalyTrend)
  unfolding each_row anomaly_trend
  get_anomaly_trends query days = do rows ← query days; each_row anomaly_trend rows

  unfoldable pub get_mev_trends :
      (query : ℤ → Outcome SqlError (List (Bytes × List Bytes)))
      → (days : ℤ) → Outcome SqlError (List MevTrend)
  unfolding each_row mev_trend
  get_mev_trends query days = do rows ← query days; each_row mev_trend rows
