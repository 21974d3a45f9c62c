-- ===== src/Intelligence/Graph/Walks.antt =====
-- Walks along the rows of the queries, and one round of src/intelligence/graph.rs.
use chain_lens.Base.{
  ℕ, zero, suc, ◌+◌, ◌≤◌, ◌<◌, ◌≡◌, refl, ap, ◌⊎◌, inl, inr, List, [], ◌∷◌, ◌++◌, map, length,
  length-append, arith, All, In,
}
use chain_lens.Domain.{Address}
use chain_lens.Intelligence.Graph.{
  GraphNode, Queries, Search, sent_edge, sent_node, received_edge, received_node, follow, expand,
}
use chain_lens.Intelligence.Graph.Growth.{
  Grows, Grows-trans, follow-Grows, follow-covers, add_token_edges-Grows, at_depth,
}

-- A transaction goes from one to the other, in either direction.
abbrev pub Links : Queries → Address → Address → Type 0
Links q a b =
    In b (map (λ r. r.other) (q.sent_txs a)) ⊎ In b (map (λ r. r.other) (q.received_txs a))

-- A walk of this many links from the center.
abbrev pub Walk : Queries → Address → ℕ → Address → Type 0
Walk q center zero v = v ≡ center
Walk q center (suc k) v = (u : Address) × Walk q center k u × Links q u v

module _ (q : Queries) (depth limit : ℕ) (u : Address) (c : ℕ) (s : Search) where
  pub expand-Grows : Grows limit (c + 1) (Links q u) s (expand q depth limit u c s)
  unfolding expand sent_node received_node
  expand-Grows =
      let sent =
        follow q depth limit (sent_edge q depth limit u) (sent_node q depth limit) (c + 1)
          (q.sent_txs u) s in
      let received =
        follow q depth limit (received_edge q depth limit u) (received_node q depth limit) (c + 1)
          (q.received_txs u) sent in
      Grows-trans limit (c + 1) (Links q u) s received (expand q depth limit u c s)
        (Grows-trans limit (c + 1) (Links q u) s sent received
          (follow-Grows q depth limit (c + 1) (sent_edge q depth limit u) (sent_node q depth limit)
            (λ row. refl) (Links q u) (q.sent_txs u) s (λ a m. inl m))
          (follow-Grows q depth limit (c + 1) (received_edge q depth limit u)
            (received_node q depth limit) (λ row. refl) (Links q u) (q.received_txs u) sent
            (λ a m. inr m)))
        (add_token_edges-Grows q depth limit (c + 1) (Links q u) u (q.token_transfers u) received)

  pub expand-covers :
      length (expand q depth limit u c s).nodes < limit
      → (v : Address) → Links q u v
      → In v (expand q depth limit u c s).visited
  unfolding expand sent_node received_node
  expand-covers few v link =
      let sent =
        follow q depth limit (sent_edge q depth limit u) (sent_node q depth limit) (c + 1)
          (q.sent_txs u) s in
      let received =
        follow q depth limit (received_edge q depth limit u) (received_node q depth limit) (c + 1)
          (q.received_txs u) sent in
      let second =
        follow-Grows q depth limit (c + 1) (received_edge q depth limit u)
          (received_node q depth limit) (λ row. refl) (Links q u) (q.received_txs u) sent
          (λ a m. inr m) in
      let third =
        add_token_edges-Grows q depth limit (c + 1) (Links q u) u (q.token_transfers u) received in
      let fewer : length received.nodes < limit =
        omega (arith, few, ap length third.nodes, length-append received.nodes third.new) in
      let fewest : length sent.nodes < limit =
        omega (arith, fewer, ap length second.nodes, length-append sent.nodes second.new) in
      elim link [
        | inl m ↦ (third.visited v).1 (
            inl (
              (second.visited v).1 (
                inl (
                  follow-covers q depth limit (c + 1) (sent_edge q depth limit u)
                    (sent_node q depth limit) (λ row. refl) (q.sent_txs u) s fewest v m))))
        | inr m ↦ (third.visited v).1 (
            inl (
              follow-covers q depth limit (c + 1) (received_edge q depth limit u)
                (received_node q depth limit) (λ row. refl) (q.received_txs u) sent fewer v m))
      ]

-- The queue is ordered by depth, and its depths differ by one at most.
abbrev pub Band : ℕ → List (Address × ℕ) → Type 0
Band c queue = All (λ p. (c ≤ p.1) × (p.1 ≤ c + 1)) queue

abbrev pub Ordered : List (Address × ℕ) → Type 0
Ordered [] = Unit
Ordered (p ∷ queue) = Band p.1 queue × Ordered queue

pub Band-append :
    (c : ℕ) (queue : List (Address × ℕ)) (new : List GraphNode)
    → Band c queue
    → Band c (queue ++ at_depth (c + 1) new)
Band-append c [] [] b = tt
Band-append c [] (g ∷ new) b = ((omega arith, omega arith), Band-append c [] new tt)
Band-append c (p ∷ queue) new b = (b.0, Band-append c queue new b.1)

-- What comes to a queue at depths `c` and `c + 1` comes behind them.
Band-behind :
    (c d : ℕ) (queue : List (Address × ℕ)) (new : List GraphNode)
    → (c ≤ d) × (d ≤ c + 1)
    → Band d queue
    → Band d (queue ++ at_depth (c + 1) new)
Band-behind c d [] [] l b = tt
Band-behind c d [] (g ∷ new) l b =
    ((omega (arith, l.1), omega (arith, l.0)), Band-behind c d [] new l tt)
Band-behind c d (p ∷ queue) new l b = (b.0, Band-behind c d queue new l b.1)

Ordered-at_depth : (n : ℕ) (new : List GraphNode) → Ordered (at_depth n new)
Ordered-at_depth n [] = tt
Ordered-at_depth n (g ∷ new) = (same new, Ordered-at_depth n new)
  where
    same : (l : List GraphNode) → Band n (at_depth n l)
    same [] = tt
    same (h ∷ l) = ((omega arith, omega arith), same l)

pub Ordered-append :
    (c : ℕ) (queue : List (Address × ℕ)) (new : List GraphNode)
    → Band c queue
    → Ordered queue
    → Ordered (queue ++ at_depth (c + 1) new)
Ordered-append c [] new b o = Ordered-at_depth (c + 1) new
Ordered-append c (p ∷ queue) new b o =
    (Band-behind c p.1 queue new b.0 o.0, Ordered-append c queue new b.1 o.1)
