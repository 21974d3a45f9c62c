-- ===== src/Api/Unstored.antt =====
-- The handlers of src/api/handlers.rs whose statements the server rejects.
use chain_lens.Base.{
  ℕ, ◌≡◌, refl, ◌∙◌, Option, List, [], ◌∷◌, map, false, ℤ, pos, Outcome, ok, err, panic,
}
use chain_lens.Domain.{Bytes}
use chain_lens.Intelligence.Actions.{Formats, show_address}
use chain_lens.Intelligence.Anomalies.{Anomaly}
use chain_lens.Intelligence.Background.{Write}
use chain_lens.Intelligence.Graph.{GraphEdge, AddressGraph}
use chain_lens.Intelligence.Mev.Analysis.{BlockAnalytics}
use chain_lens.Intelligence.Persist.{AddressIntelligence, ContractIntelligence}
use chain_lens.Intelligence.Persist.Statements.{BlockWrite, perform, perform_all}
use chain_lens.Intelligence.Persist.Rejected.{
  address-Leaves, contract-Leaves, anomaly-Leaves, mev-Leaves, analytics-Leaves,
  relationship-Leaves,
}
use chain_lens.Sql.{string, numeric, timestamptz, TableName, Tables, Server, rows}
use chain_lens.Api.{ApiError}
use chain_lens.Api.Analyses.{
  relationship_name, graph_depth, graph_limit, answer_with, get_address_intelligence,
  get_contract_intelligence, persist_edges, get_address_graph, get_anomalies, get_block_analytics,
}

module _ {F : Type 0} (t : TableName) where
  answer_with-same :
      {E A : Type 0} (status : ApiError) (write : A → Tables F → Tables F) (r : Outcome E A)
      → ((a : A) (db : Tables F) → rows t (write a db) ≡ rows t db)
      → (db : Tables F) → rows t (answer_with status write r db).1 ≡ rows t db
  unfolding answer_with
  answer_with-same status write (ok a) each db = each a db
  answer_with-same status write (err e) each db = refl
  answer_with-same status write panic each db = refl

  module _ (fmt : Formats) (server : Server F) (parse_i64 : Bytes → Option ℤ) where
    writes-same :
        {A : Type 0} (w : A → BlockWrite fmt server) (found : List A)
        → ((a : A) (db : Tables F) → rows t (perform fmt server parse_i64 (w a) db) ≡ rows t db)
        → (db : Tables F) → rows t (perform_all fmt server parse_i64 (map w found) db) ≡ rows t db
    unfolding perform_all
    writes-same w [] each db = refl
    writes-same w (a ∷ found) each db =
        writes-same w found each (perform fmt server parse_i64 (w a) db) ∙ each a db

    module _ (not_numeric : (s : Option Bytes) → server.accepts numeric (string s) ≡ false)
        (not_timestamptz : (s : Option Bytes) → server.accepts timestamptz (string s) ≡ false) where
      edges-same :
          (edges : List GraphEdge) (db : Tables F)
          → rows t (persist_edges fmt server parse_i64 edges db) ≡ rows t db
      unfolding persist_edges
      edges-same [] db = refl
      edges-same (edge ∷ edges) db =
          edges-same edges _
          ∙ relationship-Leaves fmt server t not_numeric not_timestamptz
              (show_address fmt edge.from) (show_address fmt edge.to)
              (relationship_name edge.relationship) (pos edge.count) edge.total_value db

      analytics-same :
          (a : BlockAnalytics F) (db : Tables F)
          → rows t (
              perform_all fmt server parse_i64
                (Write.block_analytics a ∷ map Write.mev_event a.mev_events)
                db)
            ≡ rows t db
      unfolding perform_all perform
      analytics-same a db =
          writes-same Write.mev_event a.mev_events
            (λ e. mev-Leaves fmt server t not_numeric not_timestamptz e) _
          ∙ analytics-Leaves fmt server t not_numeric not_timestamptz a db

      -- If the server takes no text for a column of type NUMERIC or TIMESTAMPTZ, then the requests
      -- for the analysis of an address, of a contract, of a graph, of the anomalies and of a block
      -- store nothing in any table, whether or not they are answer_with.
      pub handlers_store_nothing :
          {E : Type 0} (db : Tables F)
          → ((r : Outcome E AddressIntelligence)
              → rows t (get_address_intelligence fmt server parse_i64 r db).1 ≡ rows t db)
            × ((r : Outcome E ContractIntelligence)
                → rows t (get_contract_intelligence fmt server parse_i64 r db).1 ≡ rows t db)
            × ((build : ℕ → ℕ → Outcome E AddressGraph) (depth limit : Option ℕ)
                → rows t (get_address_graph fmt server parse_i64 build depth limit db).1
                  ≡ rows t db)
            × ((r : Outcome E (List (Anomaly F)))
                → rows t (get_anomalies fmt server parse_i64 r db).1 ≡ rows t db)
            × ((r : Outcome E (BlockAnalytics F))
                → rows t (get_block_analytics fmt server parse_i64 r db).1 ≡ rows t db)
      unfolding get_address_intelligence get_contract_intelligence get_address_graph get_anomalies
          get_block_analytics perform
      handlers_store_nothing db = (
        λ r. answer_with-same _ _ r (address-Leaves fmt server t not_numeric not_timestamptz) db,
        λ r. answer_with-same _ _ r (contract-Leaves fmt server t not_numeric not_timestamptz) db,
        λ build depth limit.
            answer_with-same _ _ (build (graph_depth depth) (graph_limit limit))
              (λ g. edges-same g.edges) db,
        λ r.
            answer_with-same _ _ r
              (λ found.
                writes-same Write.anomaly found
                  (anomaly-Leaves fmt server t not_numeric not_timestamptz))
              db,
        λ r. answer_with-same _ _ r analytics-same db,
      )
