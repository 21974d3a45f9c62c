-- ===== src/Tests/Exploring.antt =====
-- The graph around an address, and the tables of methods and events, at concrete inputs.
use chain_lens.Base.{
  ℕ, ◌≤◌, ◌≡◌, ◌⊎◌, inl, inr, refl, some, none, [], ◌∷◌, if◌then◌else◌, bytes_eq, Bool-cases, arith,
  In, Nodup,
}
use chain_lens.Domain.{Address}
use chain_lens.Intelligence.Graph.{
  AddressGraph, TransferRow, Queries, transferred_to, sent_node, sent_edge, follow, add_token_edges,
  build_graph,
}
use chain_lens.Intelligence.Graph.Growth.{addresses}
use chain_lens.Intelligence.Graph.Walks.{Walk}
use chain_lens.Intelligence.Graph.Reach.{FewRows, build_graph-Reached, build_graph_complete}

abbrev alice : Address
alice = 1 ∷ []

abbrev bob : Address
bob = 2 ∷ []

abbrev payment : TransferRow
payment = record {
  other = bob;
  count = 3;
  total_value = 53 ∷ [];
  first_seen = none;
  last_seen = none;
}

abbrev queries : Queries
queries = record {
  sent_txs = λ a. if bytes_eq a alice then payment ∷ [] else [];
  received_txs = λ a. [];
  token_transfers = λ a. [];
  tx_count = λ a. 4;
  wei_to_eth = λ v. v;
}

abbrev around_alice : AddressGraph
around_alice = record {
  center = alice;
  nodes =
      record {
        address = bob;
        label = none;
        interaction_count = 4;
        first_interaction = none;
        last_interaction = none;
      }
      ∷ [];
  edges =
      record {
        from = alice;
        to = bob;
        relationship = transferred_to;
        count = 3;
        total_value = some (53 ∷ []);
        first_seen = none;
        last_seen = none;
      }
      ∷ [];
  depth_reached = 0;
  total_nodes = 1;
  total_edges = 1;
}

explored : build_graph queries alice 2 10 ≡ some around_alice
unfolding build_graph bytes_eq add_token_edges follow sent_node sent_edge
explored = refl

build_graph-Reached_example :
    (g : AddressGraph) × (build_graph queries alice 2 10 ≡ some g)
    × Nodup (alice ∷ addresses g.nodes)
    × (g.total_nodes ≤ 10)
    × ((v : Address) → In v (addresses g.nodes) → (k : ℕ) × Walk queries alice k v × (k ≤ 2))
build_graph-Reached_example = build_graph-Reached queries 2 10 alice

one_link : Walk queries alice 1 bob
unfolding bytes_eq
one_link = (alice, refl, inl (inl refl))

few_rows : FewRows queries alice 2
few_rows k u walk near = elim (Bool-cases (bytes_eq u alice)) [
  | inl is ↦ (ground (arith, is), ground arith)
  | inr other ↦ (ground (arith, other), ground arith)
]

build_graph_complete_example : (bob ≡ alice) ⊎ In bob (addresses around_alice.nodes)
build_graph_complete_example =
    build_graph_complete queries 2 10 alice few_rows around_alice explored (omega arith) 1 bob
      one_link (omega arith)
