-- ===== src/Intelligence/Export.antt =====
-- Tables as files: src/intelligence/export.rs. What the queries return, errors included, and the
-- crate `csv` are parameters.
use mathlib.Core.Option
use chain_lens.Base.{List, Option, map, ℤ, text, trim_0x, ◌++◌, Outcome, ok, ok_or, ◌>>=◌}
use chain_lens.Domain.{Bytes}
use chain_lens.Intelligence.Actions.{Formats, show_address}
use chain_lens.Sql.{SqlError, protocol}

pub record ExportRow : Type 0 where
  pub block_number : ℤ
  pub timestamp : Bytes
  pub tx_hash : Bytes
  pub from : Bytes
  pub to : Option Bytes
  pub value : Bytes
  pub action_type : Bytes
  pub description : Bytes

-- A row of the query that joins transactions with their blocks and actions.
pub record JoinedRow : Type 0 where
  pub block_number : ℤ
  pub timestamp : Bytes
  pub hash : Bytes
  pub from_addr : Bytes
  pub to_addr : Option Bytes
  pub value : Bytes
  pub action_type : Bytes
  pub description : Bytes

-- A row of the queries for anomalies and events; the entity is in hexadecimal.
pub record AnomalyExport (F : Type 0) : Type 0 where
  pub id : ℤ
  pub anomaly_type : Bytes
  pub severity : Bytes
  pub detected_at : Bytes
  pub entity : Bytes
  pub entity_type : Bytes
  pub description : Bytes
  pub observed_value : F
  pub baseline_value : F
  pub threshold : F

pub record MevExport (F : Type 0) : Type 0 where
  pub id : ℤ
  pub mev_type : Bytes
  pub severity : Bytes
  pub block_number : ℤ
  pub detected_at : Bytes
  pub description : Bytes
  pub confidence : F

-- A writer to which all rows are serialized, and its text.
abbrev pub Csv : Type 0 → Type 0
Csv A = List A → Outcome SqlError Bytes

module _ (fmt : Formats) where
  unfoldable pub export_row : JoinedRow → ExportRow
  unfolding show_address
  export_row row = record {
    block_number = row.block_number;
    timestamp = row.timestamp;
    tx_hash = show_address fmt row.hash;
    from = show_address fmt row.from_addr;
    to = Option.map (show_address fmt) row.to_addr;
    value = row.value;
    action_type = row.action_type;
    description = row.description;
  }

  -- The query for the transactions of an address, with a limit.
  module _ (query : Bytes → ℤ → Outcome SqlError (List JoinedRow)) where
    unfoldable pub export_address_transactions_csv :
        Csv ExportRow → (address : Bytes) → (limit : ℤ) → Outcome SqlError Bytes
    unfolding export_row
    export_address_transactions_csv csv address limit = do
      addr_bytes ← ok_or (fmt.hex_decode (trim_0x address)) (protocol (text "invalid address"))
      rows ← query addr_bytes limit
      csv (map export_row rows)

    unfoldable pub export_address_transactions_json :
        (address : Bytes) → (limit : ℤ) → Outcome SqlError (List ExportRow)
    unfolding export_row
    export_address_transactions_json address limit = do
      addr_bytes ← ok_or (fmt.hex_decode (trim_0x address)) (protocol (text "invalid address"))
      rows ← query addr_bytes limit
      ok (map export_row rows)

module _ {F : Type 0} where
  unfoldable pub export_anomalies_csv :
      Csv (AnomalyExport F) → Outcome SqlError (List (AnomalyExport F)) → Outcome SqlError Bytes
  export_anomalies_csv csv query = do
    rows ← query
    csv (map (λ (row : AnomalyExport F). record row { entity = text "0x" ++ row.entity }) rows)

  -- The query for one block, or for the latest events.
  unfoldable pub export_mev_events_csv :
      Csv (MevExport F)
      → (Option ℤ → Outcome SqlError (List (MevExport F)))
      → (block_number : Option ℤ) → Outcome SqlError Bytes
  export_mev_events_csv csv query block_number = do rows ← query block_number; csv rows
