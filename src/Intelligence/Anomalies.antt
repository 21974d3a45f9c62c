-- ===== src/Intelligence/Anomalies.antt =====
-- Unusual activity: src/intelligence/anomaly.rs. What the queries return, floating-point numbers and
-- the notations of numbers are parameters; a failed query ends the call with its error and is left
-- out.
pub mod Detectors
pub mod Severities
use chain_lens.Base.{
  Outcome, ℕ, Option, none, some, List, [], ◌∷◌, ◌++◌, Bool, if◌then◌else◌, ltb, leb, length, take,
  map, text, unwrap_or, ℤ, pos, negsuc, sort_by,
}
use chain_lens.Sql.{SqlError}
use chain_lens.Domain.{Bytes, Address, B256}

pub data AnomalyType : Type 0 where
  large_transfer activity_spike new_wallet_high_value contract_interaction_spike : AnomalyType
  coordinated_activity : AnomalyType

pub data Severity : Type 0 where
  low medium high critical : Severity

pub record Anomaly (F : Type 0) : Type 0 where
  pub id : ℕ
  pub anomaly_type : AnomalyType
  pub severity : Severity
  pub detected_at : Bytes
  pub entity : Bytes
  pub entity_type : Bytes
  pub description : Bytes
  pub observed_value : F
  pub baseline_value : F
  pub threshold : F
  pub evidence : List Bytes
  pub block_number : Option ℕ
  pub tx_hash : Option Bytes

-- `f64` and the notations: `show` is `{}`, `show_0` is `{:.0}`. `sum` adds from the left, from 0.
pub record Floats (F : Type 0) : Type 0 where
  pub of_nat : ℕ → F
  pub parse : Bytes → Option F
  pub mul : F → F → F
  pub div : F → F → F
  pub sum : List F → F
  pub gt : F → F → Bool
  pub show : F → Bytes
  pub show_0 : F → Bytes
  pub show_nat : ℕ → Bytes
  pub hex_encode : Bytes → Bytes

pub record LargeTransferRow : Type 0 where
  pub hash : B256
  pub from_addr : Address
  pub to_addr : Option Address
  pub value : Bytes
  pub block_number : ℕ
  pub timestamp : Bytes

pub record BlockRow : Type 0 where
  pub number : ℕ
  pub tx_count : ℕ
  pub timestamp : Bytes

pub record WalletRow : Type 0 where
  pub from_addr : Address
  pub first_seen : Bytes
  pub tx_count : ℕ
  pub total_value : Bytes

pub record ContractRow : Type 0 where
  pub to_addr : Address
  pub interaction_count : ℕ
  pub last_seen : Bytes

pub record CoordinatedRow : Type 0 where
  pub to_addr : Address
  pub addr_count : ℕ
  pub addresses : List Address
  pub first_seen : Bytes

-- What the queries found; those of `large_transfers` are above the threshold that is bound.
pub record AnomalyRows : Type 0 where
  pub avg_value : Bytes
  pub large_transfers : (threshold : Bytes) → List LargeTransferRow
  pub recent_blocks : List BlockRow
  pub new_wallets : List WalletRow
  pub recent_contracts : List ContractRow
  pub recent_numbers : List ℕ
  pub coordinated : (block_number : ℕ) → List CoordinatedRow

-- The queries, each of which may fail. The threshold of `large_transfers` is bound as a text.
pub record AnomalyQueries : Type 0 where
  pub avg_value : Outcome SqlError Bytes
  pub large_transfers : (threshold : Bytes) → Outcome SqlError (List LargeTransferRow)
  pub recent_blocks : Outcome SqlError (List BlockRow)
  pub new_wallets : Outcome SqlError (List WalletRow)
  pub recent_contracts : Outcome SqlError (List ContractRow)
  pub recent_numbers : Outcome SqlError (List ℕ)
  pub coordinated : (block_number : ℕ) → Outcome SqlError (List CoordinatedRow)

unfoldable pub severity_order : Severity → ℕ
severity_order critical = 4
severity_order high = 3
severity_order medium = 2
severity_order low = 1

-- `", "` between the texts, as `join` puts it.
unfoldable pub join : List Bytes → Bytes
join [] = []
join (a ∷ []) = a
join (a ∷ b ∷ l) = a ++ text ", " ++ join (b ∷ l)

module _ {F : Type 0} (f : Floats F) (q : AnomalyRows) where
  abbrev pub hex : Bytes → Bytes
  hex b = text "0x" ++ f.hex_encode b

  abbrev pub number : ℕ → Bytes
  number n = f.show_nat n

  unfoldable pub avg_value : F
  avg_value = unwrap_or (f.parse q.avg_value) (f.of_nat 0)

  unfoldable pub transfer_severity : F → Severity
  unfolding avg_value
  transfer_severity value =
      if f.gt value (f.mul avg_value (f.of_nat 100))
      then critical
      else if f.gt value (f.mul avg_value (f.of_nat 50))
      then high
      else medium

  unfoldable pub large_transfer_anomaly : LargeTransferRow → Anomaly F
  unfolding avg_value transfer_severity
  large_transfer_anomaly row =
      let value = unwrap_or (f.parse row.value) (f.of_nat 0) in
      record {
        id = 0;
        anomaly_type = large_transfer;
        severity = transfer_severity value;
        detected_at = row.timestamp;
        entity = hex row.from_addr;
        entity_type = text "address";
        description =
            text "Transfer of "
            ++ row.value
            ++ text " wei is significantly above average ("
            ++ q.avg_value
            ++ text " wei)";
        observed_value = value;
        baseline_value = avg_value;
        threshold = f.mul avg_value (f.of_nat 10);
        evidence =
            (text "tx_hash: " ++ hex row.hash)
            ∷ (text "value: " ++ row.value)
            ∷ (text "from: " ++ hex row.from_addr)
            ∷ (text "to: " ++ elim row.to_addr [ none ↦ [] | some t ↦ hex t ])
            ∷ [];
        block_number = some row.block_number;
        tx_hash = some (hex row.hash);
      }

  unfoldable pub detect_large_transfers : List (Anomaly F)
  unfolding avg_value large_transfer_anomaly
  detect_large_transfers =
      map large_transfer_anomaly (q.large_transfers (f.show (f.mul avg_value (f.of_nat 10))))
