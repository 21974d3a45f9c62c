-- ===== src/Intelligence/Persist/Rejected.antt =====
-- The statements of src/intelligence/persist.rs whose values do not have the types of their
-- columns.
use chain_lens.Base.{
  ◌≡◌, ◌≢◌, refl, ◌∙◌, Option, some, List, [], ◌∷◌, false, ℤ, Outcome, ok, err, panic, Ensures,
  value, Ensures->>=, Ensures-ok, Outcome-cases, inl, inr,
}
use chain_lens.Domain.{Bytes}
use chain_lens.Intelligence.Actions.{TransactionAction, Formats}
use chain_lens.Intelligence.Actions.Explain.{TransactionExplanation}
use chain_lens.Intelligence.Anomalies.{Anomaly}
use chain_lens.Intelligence.Background.{Write}
use chain_lens.Intelligence.Mev.{MevEvent}
use chain_lens.Intelligence.Mev.Analysis.{BlockAnalytics}
use chain_lens.Intelligence.Persist.{
  AddressIntelligence, ContractIntelligence, decode_or, decode_opt, action_insert, address_insert,
  contract_insert,
}
use chain_lens.Intelligence.Persist.Statements.{
  anomaly_insert, mev_insert, analytics_insert, relationship_insert, persist_actions,
  persist_transaction_actions, persist_address_stats, persist_contract_profile, persist_anomaly,
  persist_mev_event, persist_block_analytics, persist_address_relationship, BlockWrite, perform,
  perform_all,
}
use chain_lens.Sql.{
  string, numeric, timestamptz, SqlError, TableName, transaction_actions, Tables, Server, Insert,
  after, rows, execute,
}
use chain_lens.Sql.Laws.{Leaves, Leaves->>=, execute-Leaves, rejected-Leaves, Misfit, here, later}

module _ {F : Type 0} (fmt : Formats) where
  IntoActions : Insert F → Type 0
  IntoActions i = i.table ≡ transaction_actions

  action_insert-table :
      (parse_i64 : Bytes → Option ℤ) (tx_hash : Bytes) (action : TransactionAction)
      → Ensures IntoActions (action_insert fmt {F = F} parse_i64 tx_hash action)
  unfolding action_insert IntoActions
  action_insert-table parse_i64 tx_hash action =
      Ensures->>= IntoActions (decode_or fmt "invalid from address" action.from) _ λ from_bytes.
        Ensures->>= IntoActions (decode_opt fmt "invalid to address" action.to) _ λ to_bytes.
          Ensures->>= IntoActions (decode_opt fmt "invalid token address" action.token_address) _
            λ token_bytes.
              Ensures->>= IntoActions (decode_opt fmt "invalid spender address" action.spender) _
                λ spender_bytes. value refl

module _ {F : Type 0} (fmt : Formats) (server : Server F) (parse_i64 : Bytes → Option ℤ)
    (t : TableName) (other : t ≢ transaction_actions) where
  persist_actions-Leaves :
      (tx_hash : Bytes) (actions : List TransactionAction)
      → Leaves t (persist_actions fmt server parse_i64 tx_hash actions)
  unfolding persist_actions IntoActions
  persist_actions-Leaves tx_hash [] db = refl
  persist_actions-Leaves tx_hash (action ∷ actions) db =
      elim (Outcome-cases (action_insert fmt {F = F} parse_i64 tx_hash action)) [
        | inl (statement, made) ↦ rw made (
            Leaves->>= t (execute server statement)
              (λ _. persist_actions fmt server parse_i64 tx_hash actions)
              (execute-Leaves t server statement (λ e. other (
                e
                ∙ Ensures-ok (IntoActions fmt) _ (action_insert-table fmt parse_i64 tx_hash action)
                    made)))
              (λ _. persist_actions-Leaves tx_hash actions) db)
        | inr (inl p) ↦ rw p refl
        | inr (inr (e, p)) ↦ rw p refl
      ]

  persist_transaction_actions-Leaves :
      (e : TransactionExplanation) → Leaves t (persist_transaction_actions fmt server parse_i64 e)
  unfolding persist_transaction_actions
  persist_transaction_actions-Leaves e =
      Leaves->>= t _ _ (λ db. refl) (λ tx_hash. persist_actions-Leaves tx_hash e.actions)

module _ {F : Type 0} (fmt : Formats) (server : Server F) (t : TableName)
    (not_numeric : (s : Option Bytes) → server.accepts numeric (string s) ≡ false)
    (not_timestamptz : (s : Option Bytes) → server.accepts timestamptz (string s) ≡ false) where
  abbrev Rejected : Insert F → Type 0
  Rejected i = Misfit server i.columns i.values

  -- A statement, if one is made, is rejected.
  made-Leaves :
      (made : Outcome SqlError (Insert F))
      → Ensures Rejected made
      → Leaves t (λ db. after (made, db) (execute server))
  made-Leaves (ok i) (value rejected) db = rejected-Leaves server t i rejected db
  made-Leaves (err e) _ db = refl
  made-Leaves panic _ db = refl

  pub address-Leaves : (i : AddressIntelligence) → Leaves t (persist_address_stats fmt server i)
  unfolding persist_address_stats address_insert
  address-Leaves i = made-Leaves _ (
      Ensures->>= Rejected (decode_or fmt "invalid address" i.address) _
        λ _. value (later (here (not_timestamptz i.first_seen))))

  pub contract-Leaves :
      (i : ContractIntelligence) → Leaves t (persist_contract_profile fmt server i)
  unfolding persist_contract_profile contract_insert
  contract-Leaves i = made-Leaves _ (
      Ensures->>= Rejected (decode_or fmt "invalid address" i.address) _ λ _.
        Ensures->>= Rejected (decode_opt fmt "invalid creator" i.creator) _ λ _.
          Ensures->>= Rejected (decode_opt fmt "invalid deploy tx" i.deployment_tx) _
            λ _. value (later (here (not_timestamptz i.first_seen))))

  pub anomaly-Leaves : (a : Anomaly F) → Leaves t (persist_anomaly fmt server a)
  unfolding persist_anomaly anomaly_insert
  anomaly-Leaves a =
      Leaves->>= t _ _
        (rejected-Leaves server t (anomaly_insert fmt a)
          (later (later (here (not_timestamptz (some a.detected_at))))))
        (λ _ db. refl)

  pub mev-Leaves : (e : MevEvent F) → Leaves t (persist_mev_event fmt server e)
  unfolding persist_mev_event mev_insert
  mev-Leaves e =
      Leaves->>= t _ _
        (rejected-Leaves server t (mev_insert fmt e)
          (later (later (later (here (not_timestamptz (some e.timestamp)))))))
        (λ _ db. refl)

  pub analytics-Leaves : (a : BlockAnalytics F) → Leaves t (persist_block_analytics fmt server a)
  unfolding persist_block_analytics analytics_insert
  analytics-Leaves a =
      rejected-Leaves server t (analytics_insert fmt a)
        (later (here (not_numeric (some a.total_priority_fees))))

  pub relationship-Leaves :
      (from to relationship : Bytes) (count : ℤ) (total_value : Option Bytes)
      → Leaves t (persist_address_relationship fmt server from to relationship count total_value)
  unfolding persist_address_relationship relationship_insert
  relationship-Leaves from to relationship count total_value = made-Leaves _ (
      Ensures->>= Rejected (decode_or fmt "invalid from" from) _ λ _.
        Ensures->>= Rejected (decode_or fmt "invalid to" to) _
          λ _. value (later (later (later (later (here (not_numeric total_value)))))))

  perform-Leaves :
      (parse_i64 : Bytes → Option ℤ) (w : BlockWrite fmt server) (db : Tables F)
      → t ≢ transaction_actions
      → rows t (perform fmt server parse_i64 w db) ≡ rows t db
  unfolding perform
  perform-Leaves parse_i64 (Write.transaction_actions e) db other =
      persist_transaction_actions-Leaves fmt server parse_i64 t other e db
  perform-Leaves parse_i64 (Write.address_stats s) db other = address-Leaves s db
  perform-Leaves parse_i64 (Write.contract_profile p) db other = contract-Leaves p db
  perform-Leaves parse_i64 (Write.anomaly a) db other = anomaly-Leaves a db
  perform-Leaves parse_i64 (Write.block_analytics a) db other = analytics-Leaves a db
  perform-Leaves parse_i64 (Write.mev_event e) db other = mev-Leaves e db

  -- If the server takes no text for a column of type NUMERIC or TIMESTAMPTZ, then no writes of the
  -- task change any table but that of the transaction actions: the analyses of addresses, contracts
  -- and blocks, the anomalies and the events that the task persists are never stored.
  pub perform_all_leaves :
      (parse_i64 : Bytes → Option ℤ) (writes : List (BlockWrite fmt server)) (db : Tables F)
      → t ≢ transaction_actions
      → rows t (perform_all fmt server parse_i64 writes db) ≡ rows t db
  unfolding perform_all
  perform_all_leaves parse_i64 [] db other = refl
  perform_all_leaves parse_i64 (w ∷ writes) db other =
      perform_all_leaves parse_i64 writes (perform fmt server parse_i64 w db) other
      ∙ perform-Leaves parse_i64 w db other
