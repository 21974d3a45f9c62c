-- ===== src/Api/Analyses.antt =====
-- The handlers of src/api/handlers.rs that analyse and persist. What the analyses return is a
-- parameter; the conversion of an answer to JSON, which does not fail on these types, is left out.
use chain_lens.Base.{
  ℕ, zero, suc, min, Option, List, [], ◌∷◌, text, unwrap_or, ℤ, pos, Outcome, ok, err, panic,
}
use chain_lens.Domain.{Bytes}
use chain_lens.Intelligence.Actions.{Formats, ExplainError, show_address}
use chain_lens.Intelligence.Actions.Explain.{TransactionExplanation}
use chain_lens.Intelligence.Anomalies.{Anomaly}
use chain_lens.Intelligence.Background.{Write}
use chain_lens.Intelligence.Graph.{
  RelationshipType, transferred_to, received_from, called, approved, deployed, interacted_with,
  transferred_token_to, GraphEdge, AddressGraph,
}
use chain_lens.Intelligence.Mev.Analysis.{BlockAnalytics}
use chain_lens.Intelligence.Persist.{AddressIntelligence, ContractIntelligence}
use chain_lens.Intelligence.Persist.Statements.{persist_address_relationship, perform, perform_all}
use chain_lens.Sql.{Tables, Server}
use chain_lens.Api.{ApiError, not_found, internal_server_error}
use mathlib.Core.List.{map}

-- `format!("{:?}", edge.relationship).to_lowercase()`
unfoldable pub relationship_name : RelationshipType → Bytes
relationship_name transferred_to = text "transferredto"
relationship_name received_from = text "receivedfrom"
relationship_name called = text "called"
relationship_name approved = text "approved"
relationship_name deployed = text "deployed"
relationship_name interacted_with = text "interactedwith"
relationship_name transferred_token_to = text "transferredtokento"

-- `query.depth.unwrap_or(2).min(5)` and `query.limit.unwrap_or(50).min(200)`
unfoldable pub graph_depth : Option ℕ → ℕ
graph_depth depth = min (unwrap_or depth 2) 5

unfoldable pub graph_limit : Option ℕ → ℕ
graph_limit limit = min (unwrap_or limit 50) 200

-- An answer, and the tables that the handler leaves.
abbrev pub Handler : Type 0 → Type 0 → Type 0
Handler F A = Tables F → Outcome ApiError A × Tables F

module _ {F : Type 0} where
  -- `match analysis { Ok(a) => { persist; Ok(a) } Err(e) => Err(status) }`
  unfoldable pub answer_with :
      {E A : Type 0} → ApiError → (A → Tables F → Tables F) → Outcome E A → Handler F A
  answer_with status persist (ok a) db = (ok a, persist a db)
  answer_with status persist (err e) db = (err status, db)
  answer_with status persist panic db = (panic, db)

  module _ (fmt : Formats) (server : Server F) (parse_i64 : Bytes → Option ℤ) where
    unfoldable pub handle_explanation :
        Outcome ExplainError TransactionExplanation → Handler F TransactionExplanation
    unfolding answer_with perform
    handle_explanation =
        answer_with not_found (λ e. perform fmt server parse_i64 (Write.transaction_actions e))

    unfoldable pub get_address_intelligence :
        {E : Type 0} → Outcome E AddressIntelligence → Handler F AddressIntelligence
    unfolding answer_with perform
    get_address_intelligence =
        answer_with internal_server_error
          (λ s. perform fmt server parse_i64 (Write.address_stats s))

    unfoldable pub get_contract_intelligence :
        {E : Type 0} → Outcome E ContractIntelligence → Handler F ContractIntelligence
    unfolding answer_with perform
    get_contract_intelligence =
        answer_with internal_server_error
          (λ p. perform fmt server parse_i64 (Write.contract_profile p))

    -- The loop over the edges of a graph.
    unfoldable pub persist_edges : List GraphEdge → Tables F → Tables F
    unfolding persist_address_relationship relationship_name show_address
    persist_edges [] db = db
    persist_edges (edge ∷ edges) db =
        persist_edges edges
          (persist_address_relationship fmt server (show_address fmt edge.from)
            (show_address fmt edge.to) (relationship_name edge.relationship) (pos edge.count)
            edge.total_value db).1

    -- `build` is the call of `build_graph` with a depth and a limit.
    unfoldable pub get_address_graph :
        {E : Type 0}
        → ((depth limit : ℕ) → Outcome E AddressGraph)
        → (depth limit : Option ℕ) → Handler F AddressGraph
    unfolding answer_with persist_edges graph_depth graph_limit
    get_address_graph build depth limit =
        answer_with internal_server_error (λ g. persist_edges g.edges)
          (build (graph_depth depth) (graph_limit limit))

    unfoldable pub get_anomalies :
        {E : Type 0} → Outcome E (List (Anomaly F)) → Handler F (List (Anomaly F))
    unfolding answer_with perform_all
    get_anomalies =
        answer_with internal_server_error
          (λ found. perform_all fmt server parse_i64 (map Write.anomaly found))

    unfoldable pub get_block_analytics :
        {E : Type 0} → Outcome E (BlockAnalytics F) → Handler F (BlockAnalytics F)
    unfolding answer_with perform_all
    get_block_analytics = answer_with not_found (λ a.
        perform_all fmt server parse_i64
          (Write.block_analytics a ∷ map Write.mev_event a.mev_events))

    -- The tables after as many requests for one explanation.
    unfoldable pub explained_again :
        ℕ → Outcome ExplainError TransactionExplanation → Tables F → Tables F
    unfolding handle_explanation
    explained_again zero result db = db
    explained_again (suc k) result db = explained_again k result (handle_explanation result db).1
