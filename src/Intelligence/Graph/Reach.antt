-- ===== src/Intelligence/Graph/Reach.antt =====
-- What `build_graph` of src/intelligence/graph.rs returns.
use mathlib.Core.Path.{subst}
use mathlib.Core.Option.{some-injective}
use chain_lens.Base.{
  take, map, ℕ, zero, suc, ◌+◌, ◌≤◌, ◌<◌, ◌≡◌, refl, sym, ap, ◌⊎◌, inl, inr, some, List, [], ◌∷◌,
  ◌++◌, true, leb, ◌||◌, Bool-cases, length, length-append, length-map, arith, All-In, In,
  In-append_iff, Nodup,
}
use chain_lens.Domain.{Address}
use chain_lens.Intelligence.Graph.{
  GraphNode, Queries, capped, summary, Search, AddressGraph, start, loop, expand, build_graph,
}
use chain_lens.Intelligence.Graph.Growth.{addresses, at_depth}
use chain_lens.Intelligence.Graph.Walks.{Walk, Ordered, expand-Grows}
use chain_lens.Intelligence.Graph.Invariant.{Inv, start-Inv}
use chain_lens.Intelligence.Graph.Rounds.{expand-Inv}

stopped : (a b c d : ℕ) → (leb a b || leb c d) ≡ true → (a ≤ b) ⊎ (c ≤ d)
stopped a b c d stop = elim (Bool-cases (leb a b)) [
  | inl deep ↦ inl (ground (arith, deep))
  | inr shallow ↦ inr (ground (arith, stop, shallow))
]

length-at_depth : (n : ℕ) (new : List GraphNode) → length (at_depth n new) ≡ length new
length-at_depth n new = length-map new (λ g. (g.address, n))

module _ (q : Queries) (depth limit : ℕ) (center : Address) where
  -- How the loop ends: with an empty queue, or with a full graph or a deep address at its head.
  record Ended (s : Search) : Type 0 where
    pub last : Search
    pub inv : Inv q depth limit center last
    pub nodes : s.nodes ≡ last.nodes
    pub why :
        (last.queue ≡ [])
        ⊎ ((u : Address) × (c : ℕ) × (rest : List (Address × ℕ)) × (last.queue ≡ (u, c) ∷ rest)
            × ((depth ≤ c) ⊎ (limit ≤ length last.nodes)))

  loop-Ended :
      (fuel : ℕ) (s : Search) (queue : List (Address × ℕ))
      → s.queue ≡ queue
      → Inv q depth limit center s
      → length queue + limit ≤ fuel + length s.nodes
      → (s' : Search) × (loop q depth limit fuel s ≡ some s') × Ended s'
  unfolding loop
  loop-Ended zero s [] e i enough =
      (s, rw e refl, record { last = s; inv = i; nodes = refl; why = inl e })
  loop-Ended (suc fuel) s [] e i enough =
      (s, rw e refl, record { last = s; inv = i; nodes = refl; why = inl e })
  loop-Ended zero s (p ∷ rest) e i enough = absurd (omega (arith, enough, i.room))
  loop-Ended (suc fuel) s ((u, c) ∷ rest) e i enough =
      let popped = record s { queue = rest } in
      elim (Bool-cases (leb depth c || leb limit (length s.nodes))) [
        | inl stop ↦ (
          popped,
          rw (e, stop) refl,
          record {
            last = s;
            inv = i;
            nodes = refl;
            why = inr (u, c, rest, e, stopped depth c limit (length s.nodes) stop);
          },
        )
        | inr on ↦
            let after = expand q depth limit u c popped in
            let g = expand-Grows q depth limit u c popped in
            let (s', found, ended) =
              loop-Ended fuel after after.queue refl
                (expand-Inv q depth limit center s u c rest e (ground (arith, on)) i)
                (omega (
                  arith,
                  enough,
                  ap length g.nodes,
                  ap length g.queue,
                  length-append s.nodes g.new,
                  length-append rest (at_depth (c + 1) g.new),
                  length-at_depth (c + 1) g.new,
                )) in
            (s', rw (e, on) found, ended)
      ]

  -- Every short walk has been followed when there was room.
  within :
      (s : Search)
      → (e : Ended s) → length s.nodes < limit
      → (k : ℕ) (v : Address) → Walk q center k v
      → k ≤ depth
      → (d : ℕ) × In (v, d) (e.inv.done ++ e.last.queue) × (d ≤ k)
  within s e few zero v walk small =
      (0, subst (λ a. In (a, 0) (e.inv.done ++ e.last.queue)) (sym walk) e.inv.source, omega arith)
  within s e few (suc k) v (u, walk, link) small =
      let (d, there, le) = within s e few k u walk (omega (arith, small)) in
      let fewer : length e.last.nodes < limit = omega (arith, few, ap length e.nodes) in
      elim ((In-append_iff (u, d) e.inv.done e.last.queue).0 there) [
        | inl done ↦
            let (b, found, close) = e.inv.closed fewer (u, d) done v link in
            (b, found, omega (arith, close, le))
        | inr waits ↦ absurd (reached d waits (omega (arith, le, small)) fewer)
      ]
    where
      reached : (d : ℕ) → In (u, d) e.last.queue → d < depth → length e.last.nodes < limit → ⊥
      reached d waits shallow fewer = elim e.why [
        | inl empty ↦ subst (In (u, d)) empty waits
        | inr (w, c, rest, head, stop) ↦
            let bands : Ordered ((w, c) ∷ rest) = subst Ordered head e.inv.ordered in
            let behind : c ≤ d = elim (subst (In (u, d)) head waits) [
              | inl here ↦ omega (arith, ap (λ r. r.1) here)
              | inr there ↦ (All-In (λ r. (c ≤ r.1) × (r.1 ≤ c + 1)) (u, d) rest bands.0 there).0
            ] in
            elim stop [
              | inl deep ↦ omega (arith, deep, behind, shallow)
              | inr full ↦ omega (arith, full, fewer)
            ]
      ]

  ends : (s : Search) × (loop q depth limit (limit + 1) (start center) ≡ some s) × Ended s
  unfolding start
  ends =
      loop-Ended (limit + 1) (start center) ((center, 0) ∷ []) refl (start-Inv q depth limit center)
        (omega arith)

  nodes-Reached :
      (s : Search)
      → Ended s
      → Nodup (center ∷ addresses s.nodes)
        × (length s.nodes ≤ limit)
        × ((v : Address) → In v (addresses s.nodes) → (k : ℕ) × Walk q center k v × (k ≤ depth))
  nodes-Reached s e = (
    (
      λ m. e.inv.not_center (subst (λ l. In center (addresses l)) e.nodes m),
      subst (λ l. Nodup (addresses l)) (sym e.nodes) e.inv.distinct,
    ),
    omega (arith, e.inv.room, ap length e.nodes),
    λ v m.
        let old : In v (addresses e.last.nodes) = subst (λ l. In v (addresses l)) e.nodes m in
        let (d, there) = e.inv.marked v ((e.inv.known v).1 (inr old)) in
        let (_, walk, few) = e.inv.walked (v, d) there in (d, walk, few),
  )

  nodes_complete :
      (s : Search)
      → Ended s
      → length s.nodes < limit
      → (k : ℕ) (v : Address) → Walk q center k v
      → k ≤ depth
      → (v ≡ center) ⊎ In v (addresses s.nodes)
  nodes_complete s e few k v walk small =
      let (d, there, _) = within s e few k v walk small in
      let (seen, _, _) = e.inv.walked (v, d) there in
      subst (λ l. (v ≡ center) ⊎ In v (addresses l)) (sym e.nodes) ((e.inv.known v).0 seen)

-- A query finds at most what it finds without its LIMIT, and all of it if that is few.
In-map-take :
    {A B : Type 0} (f : A → B) (n : ℕ) (l : List A) (b : B)
    → In b (map f (take n l))
    → In b (map f l)
In-map-take f zero l b m = absurd m
In-map-take f (suc n) [] b m = absurd m
In-map-take f (suc n) (a ∷ l) b (inl here) = inl here
In-map-take f (suc n) (a ∷ l) b (inr there) = inr (In-map-take f n l b there)

take-few : {A : Type 0} (n : ℕ) (l : List A) → length l ≤ n → take n l ≡ l
take-few zero [] h = refl
take-few zero (a ∷ l) h = absurd (omega (arith, h))
take-few (suc n) [] h = refl
take-few (suc n) (a ∷ l) h = ap (◌∷◌ a) (take-few n l (omega (arith, h)))

module _ (q : Queries) (center : Address) where
  Walk-capped : (k : ℕ) (v : Address) → Walk (capped q) center k v → Walk q center k v
  unfolding capped
  Walk-capped zero v w = w
  Walk-capped (suc k) v (u, w, inl sent) =
      (u, Walk-capped k u w, inl (In-map-take (λ r. r.other) 20 (q.sent_txs u) v sent))
  Walk-capped (suc k) v (u, w, inr received) =
      (u, Walk-capped k u w, inr (In-map-take (λ r. r.other) 20 (q.received_txs u) v received))

  -- Whoever is fewer than `depth` links away has sent to and received from at most 20 addresses.
  abbrev pub FewRows : ℕ → Type 0
  FewRows depth =
      (k : ℕ) (u : Address)
      → Walk q center k u
      → k < depth
      → (length (q.sent_txs u) ≤ 20) × (length (q.received_txs u) ≤ 20)

  Walk-uncapped :
      (depth : ℕ)
      → FewRows depth
      → (k : ℕ) (v : Address) → Walk q center k v
      → k ≤ depth
      → Walk (capped q) center k v
  unfolding capped
  Walk-uncapped depth few zero v w small = w
  Walk-uncapped depth few (suc k) v (u, w, link) small =
      let (sent_few, received_few) = few k u w (omega (arith, small)) in
      let before = Walk-uncapped depth few k u w (omega (arith, small)) in
      elim link [
        | inl sent ↦ (
          u,
          before,
          inl (
              subst (λ rows. In v (map (λ r. r.other) rows))
                (sym (take-few 20 (q.sent_txs u) sent_few)) sent),
        )
        | inr received ↦ (
          u,
          before,
          inr (
              subst (λ rows. In v (map (λ r. r.other) rows))
                (sym (take-few 20 (q.received_txs u) received_few)) received),
        )
      ]

module _ (q : Queries) (depth limit : ℕ) (center : Address) where
  -- The search ends and returns a graph of at most `limit` nodes. No two of them have the same
  -- address, the center is not among them, and each is reached from the center along at most
  -- `depth` transactions, each followed in either direction.
  pub build_graph-Reached :
      (g : AddressGraph) × (build_graph q center depth limit ≡ some g)
      × Nodup (center ∷ addresses g.nodes)
      × (g.total_nodes ≤ limit)
      × ((v : Address) → In v (addresses g.nodes) → (k : ℕ) × Walk q center k v × (k ≤ depth))
  unfolding build_graph summary
  build_graph-Reached =
      let (s, found, e) = ends (capped q) depth limit center in
      let (nodup, room, walks) = nodes-Reached (capped q) depth limit center s e in
      (
        summary center depth s,
        rw found refl,
        nodup,
        room,
        λ v m. let (k, walk, small) = walks v m in (k, Walk-capped q center k v walk, small),
      )

  -- If every address that is fewer than `depth` transactions away from the center has sent to at most
  -- 20 addresses and received from at most 20, then a graph that is returned with fewer nodes than
  -- `limit` is complete: every address that can be reached from the center along at most `depth`
  -- transactions, each followed in either direction, is the center or a node.
  pub build_graph_complete :
      FewRows q center depth
      → (g : AddressGraph) → build_graph q center depth limit ≡ some g
      → g.total_nodes < limit
      → (k : ℕ) (v : Address) → Walk q center k v
      → k ≤ depth
      → (v ≡ center) ⊎ In v (addresses g.nodes)
  unfolding build_graph summary
  build_graph_complete rows g same few k v walk small =
      let (s, found, e) = ends (capped q) depth limit center in
      let followed = Walk-uncapped q center depth rows k v walk small in
      let is_g : some (summary center depth s) ≡ some g = rw found at same in
      subst (λ h. h.total_nodes < limit → (v ≡ center) ⊎ In v (addresses h.nodes))
        (some-injective _ _ is_g)
        (λ fewer. nodes_complete (capped q) depth limit center s e fewer k v followed small) few
