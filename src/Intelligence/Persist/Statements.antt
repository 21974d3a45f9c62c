-- ===== src/Intelligence/Persist/Statements.antt =====
-- The other statements of src/intelligence/persist.rs, its functions, and what the task of
-- src/intelligence/background.rs makes of their results: nothing.
use chain_lens.Base.{
  Option, none, some, List, [], ◌∷◌, length, unwrap_or, ℤ, pos, Outcome, ok, ◌>>=◌ as ◌>>=?◌,
}
use chain_lens.Domain.{Bytes}
use chain_lens.Intelligence.Actions.{TransactionAction, Formats}
use chain_lens.Intelligence.Actions.Explain.{TransactionExplanation}
use chain_lens.Intelligence.Anomalies.{Anomaly}
use chain_lens.Intelligence.Background.{Write}
use chain_lens.Intelligence.Mev.{MevEvent}
use chain_lens.Intelligence.Mev.Analysis.{BlockAnalytics}
use chain_lens.Intelligence.Persist.{
  AddressIntelligence, ContractIntelligence, anomaly_name, severity_name, mev_name, as_i32,
  decode_hex, decode_or, decodable, action_insert, address_insert, contract_insert,
}
use chain_lens.Sql.{
  bytea, text_type, varchar, numeric, int4, int8, float8, jsonb, timestamptz, bytea_array, vec_u8,
  string, int_64, int_32, float_64, json, vec_vec_u8, SqlError, do_nothing, do_update, Insert,
  anomalies, mev_events, block_analytics, address_relationships, Tables, Server, Effect, ◌>>=◌,
  returns, execute,
}

module _ {F : Type 0} (fmt : Formats) where
  unfoldable pub anomaly_insert : Anomaly F → Insert F
  unfolding decode_hex anomaly_name severity_name
  anomaly_insert anomaly = record {
    table = anomalies;
    columns =
        varchar ∷ varchar ∷ timestamptz ∷ bytea ∷ varchar ∷ text_type ∷ float8 ∷ float8 ∷ float8
        ∷ jsonb ∷ int8 ∷ bytea ∷ [];
    values =
        string (some (anomaly_name anomaly.anomaly_type))
        ∷ string (some (severity_name anomaly.severity))
        ∷ string (some anomaly.detected_at)
        ∷ vec_u8 (some (unwrap_or (decode_hex fmt anomaly.entity) anomaly.entity))
        ∷ string (some anomaly.entity_type)
        ∷ string (some anomaly.description)
        ∷ float_64 anomaly.observed_value
        ∷ float_64 anomaly.baseline_value
        ∷ float_64 anomaly.threshold
        ∷ json anomaly.evidence
        ∷ int_64 (elim anomaly.block_number [ none ↦ none | some n ↦ some (pos n) ])
        ∷ vec_u8
            (elim anomaly.tx_hash [ none ↦ none | some h ↦ some (unwrap_or (decode_hex fmt h) []) ])
        ∷ [];
    conflict = do_nothing;
  }

  unfoldable pub mev_insert : MevEvent F → Insert F
  unfolding decodable mev_name
  mev_insert event = record {
    table = mev_events;
    columns =
        varchar ∷ varchar ∷ int8 ∷ timestamptz ∷ text_type ∷ bytea_array ∷ bytea_array ∷ float8
        ∷ [];
    values =
        string (some (mev_name event.mev_type))
        ∷ string (some event.severity)
        ∷ int_64 (some (pos event.block_number))
        ∷ string (some event.timestamp)
        ∷ string (some event.description)
        ∷ vec_vec_u8 (decodable fmt event.involved_addresses)
        ∷ vec_vec_u8 (decodable fmt event.involved_transactions)
        ∷ float_64 event.confidence
        ∷ [];
    conflict = do_nothing;
  }

  unfoldable pub analytics_insert : BlockAnalytics F → Insert F
  unfolding as_i32
  analytics_insert analytics = record {
    table = block_analytics;
    columns = int8 ∷ numeric ∷ numeric ∷ numeric ∷ int4 ∷ int4 ∷ [];
    values =
        int_64 (some (pos analytics.block_number))
        ∷ string (some analytics.total_priority_fees)
        ∷ string (some analytics.avg_priority_fee)
        ∷ string (some analytics.max_priority_fee)
        ∷ int_32 (as_i32 (length analytics.mev_events))
        ∷ int_32 (as_i32 (length analytics.unusual_transactions))
        ∷ [];
    conflict = do_update 1;
  }

  unfoldable pub relationship_insert :
      (from to relationship : Bytes)
      → (count : ℤ) → (total_value : Option Bytes) → Outcome SqlError (Insert F)
  unfolding decode_or
  relationship_insert from to relationship count total_value =
      decode_or fmt "invalid from" from >>=? λ from_bytes.
      decode_or fmt "invalid to" to >>=? λ to_bytes. ok (record {
        table = address_relationships;
        columns = bytea ∷ bytea ∷ varchar ∷ int8 ∷ numeric ∷ [];
        values =
            vec_u8 (some from_bytes)
            ∷ vec_u8 (some to_bytes)
            ∷ string (some relationship)
            ∷ int_64 (some count)
            ∷ string total_value
            ∷ [];
        conflict = do_update 3;
      })

  module _ (server : Server F) where
    -- The loop of `persist_transaction_actions`.
    unfoldable pub persist_actions :
        (Bytes → Option ℤ) → (tx_hash : Bytes) → List TransactionAction → Effect F (Unit {0})
    unfolding action_insert execute
    persist_actions parse_i64 tx_hash [] = returns (ok tt)
    persist_actions parse_i64 tx_hash (action ∷ actions) = do
      statement ← returns (action_insert fmt parse_i64 tx_hash action)
      _ ← execute server statement
      persist_actions parse_i64 tx_hash actions

    unfoldable pub persist_transaction_actions :
        (Bytes → Option ℤ) → TransactionExplanation → Effect F (Unit {0})
    unfolding decode_or persist_actions
    persist_transaction_actions parse_i64 explanation = do
      tx_hash ← returns (decode_or fmt "invalid tx hash" explanation.tx_hash)
      persist_actions parse_i64 tx_hash explanation.actions

    unfoldable pub persist_address_stats : AddressIntelligence → Effect F (Unit {0})
    unfolding address_insert execute
    persist_address_stats intel = do
      statement ← returns (address_insert fmt intel)
      execute server statement

    unfoldable pub persist_contract_profile : ContractIntelligence → Effect F (Unit {0})
    unfolding contract_insert execute
    persist_contract_profile intel = do
      statement ← returns (contract_insert fmt intel)
      execute server statement

    -- With no conflict the statement returns the identifier of its row.
    unfoldable pub persist_anomaly : Anomaly F → Effect F ℤ
    unfolding anomaly_insert execute
    persist_anomaly anomaly = do
      _ ← execute server (anomaly_insert anomaly)
      returns (ok (server.nextval anomalies))

    unfoldable pub persist_mev_event : MevEvent F → Effect F ℤ
    unfolding mev_insert execute
    persist_mev_event event = do
      _ ← execute server (mev_insert event)
      returns (ok (server.nextval mev_events))

    unfoldable pub persist_block_analytics : BlockAnalytics F → Effect F (Unit {0})
    unfolding analytics_insert execute
    persist_block_analytics analytics = execute server (analytics_insert analytics)

    unfoldable pub persist_address_relationship :
        (from to relationship : Bytes)
        → (count : ℤ) → (total_value : Option Bytes) → Effect F (Unit {0})
    unfolding relationship_insert execute
    persist_address_relationship from to relationship count total_value = do
      statement ← returns (relationship_insert from to relationship count total_value)
      execute server statement

    abbrev pub BlockWrite : Type 0
    BlockWrite =
        Write AddressIntelligence ContractIntelligence (Anomaly F) (BlockAnalytics F) (MevEvent F)

    -- `let _ = persist::… .await`
    unfoldable pub perform : (Bytes → Option ℤ) → BlockWrite → Tables F → Tables F
    unfolding persist_transaction_actions persist_address_stats persist_contract_profile
        persist_anomaly persist_mev_event persist_block_analytics
    perform parse_i64 (Write.transaction_actions e) db =
        (persist_transaction_actions parse_i64 e db).1
    perform parse_i64 (Write.address_stats s) db = (persist_address_stats s db).1
    perform parse_i64 (Write.contract_profile p) db = (persist_contract_profile p db).1
    perform parse_i64 (Write.anomaly a) db = (persist_anomaly a db).1
    perform parse_i64 (Write.block_analytics a) db = (persist_block_analytics a db).1
    perform parse_i64 (Write.mev_event e) db = (persist_mev_event e db).1

    unfoldable pub perform_all : (Bytes → Option ℤ) → List BlockWrite → Tables F → Tables F
    unfolding perform
    perform_all parse_i64 [] db = db
    perform_all parse_i64 (w ∷ ws) db = perform_all parse_i64 ws (perform parse_i64 w db)
