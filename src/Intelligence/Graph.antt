-- ===== src/Intelligence/Graph.antt =====
-- The graph around an address: `build_graph` of src/intelligence/graph.rs. What its queries return
-- and the formatting of amounts are parameters; addresses stay bytes, where the program has their
-- hexadecimal text. A failed query ends the call with its error and is left out.
pub mod Growth
pub mod Walks
pub mod Invariant
pub mod Rounds
pub mod Reach
use mathlib.Core.Option
use chain_lens.Base.{
  ℕ, zero, suc, ◌+◌, min, Option, none, some, List, [], ◌∷◌, ◌++◌, Bool, true, false, not, ◌&&◌,
  ◌||◌, take, if◌then◌else◌, ltb, leb, length, any, bytes_eq,
}
use chain_lens.Domain.{Bytes, Address}

pub data RelationshipType : Type 0 where
  transferred_to received_from called approved deployed interacted_with : RelationshipType
  transferred_token_to : RelationshipType

pub record GraphNode : Type 0 where
  pub address : Address
  pub label : Option Bytes
  pub interaction_count : ℕ
  pub first_interaction : Option Bytes
  pub last_interaction : Option Bytes

pub record GraphEdge : Type 0 where
  pub from : Address
  pub to : Address
  pub relationship : RelationshipType
  pub count : ℕ
  pub total_value : Option Bytes
  pub first_seen : Option Bytes
  pub last_seen : Option Bytes

pub record AddressGraph : Type 0 where
  pub center : Address
  pub nodes : List GraphNode
  pub edges : List GraphEdge
  pub depth_reached : ℕ
  pub total_nodes : ℕ
  pub total_edges : ℕ

-- A row of the queries for what an address sent or received; `other` is the other address.
pub record TransferRow : Type 0 where
  pub other : Address
  pub count : ℕ
  pub total_value : Bytes
  pub first_seen : Option Bytes
  pub last_seen : Option Bytes

-- What the queries find without their LIMIT, in the order of their ORDER BY.
pub record Queries : Type 0 where
  pub sent_txs : Address → List TransferRow
  pub received_txs : Address → List TransferRow
  pub token_transfers : Address → List (Address × ℕ)
  pub tx_count : Address → ℕ
  pub wei_to_eth : Bytes → Bytes

-- The LIMIT of each query.
unfoldable pub capped : Queries → Queries
capped q = record q {
  sent_txs = λ a. take 20 (q.sent_txs a);
  received_txs = λ a. take 20 (q.received_txs a);
  token_transfers = λ a. take 10 (q.token_transfers a);
}

pub record Search : Type 0 where
  pub visited : List Address
  pub queue : List (Address × ℕ)
  pub nodes : List GraphNode
  pub edges : List GraphEdge

module _ (q : Queries) (depth limit : ℕ) where
  -- A new address becomes a node and waits in the queue, while there is room.
  unfoldable pub offer : ℕ → GraphNode → Search → Search
  offer next_depth node s =
      if not (any (bytes_eq node.address) s.visited) && ltb (length s.nodes) limit
      then record s {
        visited = node.address ∷ s.visited;
        queue = s.queue ++ (node.address, next_depth) ∷ [];
        nodes = s.nodes ++ node ∷ [];
      }
      else s

  unfoldable pub add_edge : GraphEdge → Search → Search
  add_edge edge s = record s { edges = s.edges ++ edge ∷ [] }

  unfoldable pub sent_edge : Address → TransferRow → GraphEdge
  sent_edge current row = record {
    from = current;
    to = row.other;
    relationship = transferred_to;
    count = row.count;
    total_value = some (q.wei_to_eth row.total_value);
    first_seen = row.first_seen;
    last_seen = row.last_seen;
  }

  unfoldable pub sent_node : TransferRow → GraphNode
  sent_node row = record {
    address = row.other;
    label = none;
    interaction_count = q.tx_count row.other;
    first_interaction = none;
    last_interaction = none;
  }

  unfoldable pub received_edge : Address → TransferRow → GraphEdge
  received_edge current row = record {
    from = row.other;
    to = current;
    relationship = received_from;
    count = row.count;
    total_value = some (q.wei_to_eth row.total_value);
    first_seen = row.first_seen;
    last_seen = row.last_seen;
  }

  unfoldable pub received_node : TransferRow → GraphNode
  received_node row = record {
    address = row.other;
    label = none;
    interaction_count = row.count;
    first_interaction = none;
    last_interaction = none;
  }

  -- The loop over the rows of one query: an edge for each row, and a node if the address is new.
  unfoldable pub follow :
      (TransferRow → GraphEdge) → (TransferRow → GraphNode) → ℕ → List TransferRow → Search → Search
  unfolding offer add_edge
  follow edge node next_depth [] s = s
  follow edge node next_depth (row ∷ rows) s =
      follow edge node next_depth rows (offer next_depth (node row) (add_edge (edge row) s))

  unfoldable pub token_edge : Address → Address × ℕ → GraphEdge
  token_edge current (to, count) = record {
    from = current;
    to = to;
    relationship = transferred_token_to;
    count = count;
    total_value = none;
    first_seen = none;
    last_seen = none;
  }

  unfoldable pub add_token_edges : Address → List (Address × ℕ) → Search → Search
  add_token_edges current [] s = s
  add_token_edges current (row ∷ rows) s =
      add_token_edges current rows (add_edge (token_edge current row) s)

  -- One round of the loop, for the address that left the queue.
  unfoldable pub expand : Address → ℕ → Search → Search
  expand current current_depth s =
      let sent = follow (sent_edge current) sent_node (current_depth + 1) (q.sent_txs current) s in
      let received =
        follow (received_edge current) received_node (current_depth + 1) (q.received_txs current)
          sent in
      add_token_edges current (q.token_transfers current) received

  -- The loop, on fuel; `none` if it does not suffice. At the `break` the address has left the queue.
  unfoldable pub loop : (fuel : ℕ) → Search → Option Search
  unfolding expand
  loop zero s = elim s.queue [ [] ↦ some s | _ ∷ _ ↦ none ]
  loop (suc fuel) s = elim s.queue [
    | [] ↦ some s
    | (current, current_depth) ∷ rest ↦
        let popped = record s { queue = rest } in
        let next = loop fuel (expand current current_depth popped) in
        if leb depth current_depth || leb limit (length s.nodes) then some popped else next
  ]

unfoldable pub start : Address → Search
start center = record { visited = center ∷ []; queue = (center, 0) ∷ []; nodes = []; edges = [] }

-- The depth of the last address in the queue.
unfoldable pub current_depth : List (Address × ℕ) → ℕ
current_depth [] = 0
current_depth ((_, d) ∷ []) = d
current_depth (_ ∷ p ∷ queue) = current_depth (p ∷ queue)

unfoldable pub summary : Address → (depth : ℕ) → Search → AddressGraph
unfolding current_depth
summary center depth s = record {
  center = center;
  nodes = s.nodes;
  edges = s.edges;
  depth_reached = min depth (current_depth s.queue);
  total_nodes = length s.nodes;
  total_edges = length s.edges;
}

-- A round takes an address from the queue, and only a new node comes in: `limit + 1` rounds do.
unfoldable pub build_graph : Queries → Address → (depth limit : ℕ) → Option AddressGraph
unfolding loop start summary capped
build_graph q center depth limit =
    Option.map (summary center depth) (loop (capped q) depth limit (limit + 1) (start center))
