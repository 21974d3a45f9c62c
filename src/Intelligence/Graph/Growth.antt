-- ===== src/Intelligence/Graph/Growth.antt =====
-- What the rows of one address add to the search: the inner loops of src/intelligence/graph.rs.
use mathlib.Core.Path.{subst}
use mathlib.Core.List.{append-nil, append_assoc, map-append}
use chain_lens.Base.{
  ℕ, ◌≤◌, ◌<◌, ◌≡◌, refl, sym, ap, ◌∙◌, ◌⊎◌, inl, inr, ◌↔◌, List, [], ◌∷◌, ◌++◌, map, true, not,
  ◌&&◌, ltb, length, any, bytes_eq, arith, Bool-cases, length-append, In, In-append_iff, any_iff,
  Nodup, Nodup-append,
}
use chain_lens.Domain.{Address}
use chain_lens.Intelligence.Graph.{
  GraphNode, GraphEdge, TransferRow, Queries, Search, offer, add_edge, follow, add_token_edges,
  token_edge,
}

abbrev pub addresses : List GraphNode → List Address
addresses nodes = map (λ g. g.address) nodes

abbrev pub at_depth : ℕ → List GraphNode → List (Address × ℕ)
at_depth n nodes = map (λ g. (g.address, n)) nodes

module _ (limit n : ℕ) where
  -- `s'` is `s` with new nodes, each of an address from `Among` and waiting at the depth `n`.
  pub record Grows (Among : Address → Type 0) (s s' : Search) : Type 0 where
    pub new : List GraphNode
    pub nodes : s'.nodes ≡ s.nodes ++ new
    pub queue : s'.queue ≡ s.queue ++ at_depth n new
    pub visited : (a : Address) → In a s'.visited ↔ (In a s.visited ⊎ In a (addresses new))
    pub fresh : (a : Address) → In a (addresses new) → ¬ In a s.visited
    pub once : Nodup (addresses new)
    pub offered : (a : Address) → In a (addresses new) → Among a
    pub room : length s.nodes ≤ limit → length s'.nodes ≤ limit

  pub Grows-none :
      (Among : Address → Type 0) (s s' : Search)
      → s'.nodes ≡ s.nodes
      → s'.queue ≡ s.queue
      → s'.visited ≡ s.visited
      → Grows Among s s'
  Grows-none Among s s' same_nodes same_queue same_visited = record {
    new = [];
    nodes = same_nodes ∙ sym (append-nil s.nodes);
    queue = same_queue ∙ sym (append-nil s.queue);
    visited = λ a. (
      λ h. inl (subst (In a) same_visited h),
      λ h. elim h [ inl m ↦ subst (In a) (sym same_visited) m | inr m ↦ absurd m ],
    );
    fresh = λ a m. absurd m;
    once = tt;
    offered = λ a m. absurd m;
    room = λ h. omega (arith, ap length same_nodes);
  }

  pub Grows-trans :
      (Among : Address → Type 0) (s t u : Search)
      → Grows Among s t
      → Grows Among t u
      → Grows Among s u
  Grows-trans Among s t u g h = record {
    new = g.new ++ h.new;
    nodes = h.nodes ∙ ap (λ l. l ++ h.new) g.nodes ∙ append_assoc s.nodes g.new h.new;
    queue =
        h.queue
        ∙ ap (λ l. l ++ at_depth n h.new) g.queue
        ∙ append_assoc s.queue (at_depth n g.new) (at_depth n h.new)
        ∙ ap (λ l. s.queue ++ l) (sym (map-append (λ g. (g.address, n)) g.new h.new));
    visited = λ a. (
      λ m. elim ((h.visited a).0 m) [
        | inl before ↦ elim ((g.visited a).0 before) [
          | inl old ↦ inl old
          | inr first ↦ inr (both a (inl first))
        ]
        | inr second ↦ inr (both a (inr second))
      ],
      λ m. elim m [
        | inl old ↦ (h.visited a).1 (inl ((g.visited a).1 (inl old)))
        | inr added ↦ elim (either a added) [
          | inl first ↦ (h.visited a).1 (inl ((g.visited a).1 (inr first)))
          | inr second ↦ (h.visited a).1 (inr second)
        ]
      ],
    );
    fresh = λ a m old. elim (either a m) [
      | inl first ↦ g.fresh a first old
      | inr second ↦ h.fresh a second ((g.visited a).1 (inl old))
    ];
    once = subst Nodup (sym (map-append (λ g. g.address) g.new h.new)) (
        Nodup-append (addresses g.new) (addresses h.new) g.once h.once
          (λ a first second. h.fresh a second ((g.visited a).1 (inr first))));
    offered = λ a m. elim (either a m) [
      | inl first ↦ g.offered a first
      | inr second ↦ h.offered a second
    ];
    room = λ few. h.room (g.room few);
  }
    where
      split :
          (a : Address)
          → In a (addresses (g.new ++ h.new)) ↔ (In a (addresses g.new) ⊎ In a (addresses h.new))
      split a =
          subst (λ l. In a l ↔ (In a (addresses g.new) ⊎ In a (addresses h.new)))
            (sym (map-append (λ g. g.address) g.new h.new))
            (In-append_iff a (addresses g.new) (addresses h.new))

      both :
          (a : Address)
          → In a (addresses g.new) ⊎ In a (addresses h.new)
          → In a (addresses (g.new ++ h.new))
      both a = (split a).1

      either :
          (a : Address)
          → In a (addresses (g.new ++ h.new))
          → In a (addresses g.new) ⊎ In a (addresses h.new)
      either a = (split a).0

module _ (q : Queries) (depth limit n : ℕ) where
  -- A node of an address that is offered: it is new and there is room, or nothing changes.
  offer-Grows :
      (Among : Address → Type 0) (node : GraphNode) (s : Search)
      → Among node.address
      → Grows limit n Among s (offer q depth limit n node s)
  unfolding offer
  offer-Grows Among node s from =
      elim (Bool-cases
        (not (any (bytes_eq node.address) s.visited) && ltb (length s.nodes) limit)) [
          | inr stays ↦ rw stays (Grows-none limit n Among s s refl refl refl)
          | inl joins ↦ rw joins (record {
            new = node ∷ [];
            nodes = refl;
            queue = refl;
            visited = λ a. (
              λ m. elim m [ inl here ↦ inr (inl here) | inr old ↦ inl old ],
              λ m. elim m [
                | inl old ↦ inr old
                | inr (inl here) ↦ inl here
                | inr (inr none) ↦ absurd none
              ],
            );
            fresh = λ a m old. elim m [
              | inl here ↦
                  let known : any (bytes_eq node.address) s.visited ≡ true =
                    (any_iff node.address s.visited).1 (subst (λ b. In b s.visited) here old) in
                  absurd (ground (arith, known, joins))
              | inr none ↦ none
            ];
            once = (λ m. m, tt);
            offered =
                λ a m. elim m [ inl here ↦ subst Among (sym here) from | inr none ↦ absurd none ];
            room = λ few. ground (arith, joins, length-append s.nodes (node ∷ []));
          })
        ]

  offer-covers :
      (node : GraphNode) (s : Search)
      → length (offer q depth limit n node s).nodes < limit
      → In node.address (offer q depth limit n node s).visited
  unfolding offer
  offer-covers node s few = elim (Bool-cases (any (bytes_eq node.address) s.visited)) [
    | inl known ↦ rw known ((any_iff node.address s.visited).0 known)
    | inr new ↦ elim (Bool-cases (ltb (length s.nodes) limit)) [
      | inl room ↦ rw (new, room) (inl refl)
      | inr full ↦ absurd (ground (arith, few, new, full))
    ]
  ]

  module _ (edge : TransferRow → GraphEdge) (node : TransferRow → GraphNode)
      (names : (row : TransferRow) → (node row).address ≡ row.other) where
    pub follow-Grows :
        (Among : Address → Type 0) (rows : List TransferRow) (s : Search)
        → ((a : Address) → In a (map (λ r. r.other) rows) → Among a)
        → Grows limit n Among s (follow q depth limit edge node n rows s)
    unfolding follow add_edge
    follow-Grows Among [] s from = Grows-none limit n Among s s refl refl refl
    follow-Grows Among (row ∷ rows) s from =
        let s1 = add_edge q depth limit (edge row) s in
        let s2 = offer q depth limit n (node row) s1 in
        Grows-trans limit n Among s s2 (follow q depth limit edge node n rows s2)
          (Grows-trans limit n Among s s1 s2 (Grows-none limit n Among s s1 refl refl refl)
            (offer-Grows Among (node row) s1 (from (node row).address (inl (names row)))))
          (follow-Grows Among rows s2 (λ a m. from a (inr m)))

    pub follow-covers :
        (rows : List TransferRow) (s : Search)
        → length (follow q depth limit edge node n rows s).nodes < limit
        → (a : Address) → In a (map (λ r. r.other) rows)
        → In a (follow q depth limit edge node n rows s).visited
    unfolding follow add_edge
    follow-covers [] s few a m = absurd m
    follow-covers (row ∷ rows) s few a m =
        let s1 = add_edge q depth limit (edge row) s in
        let s2 = offer q depth limit n (node row) s1 in
        let g = follow-Grows (λ _. Unit {0}) rows s2 (λ _ _. tt) in
        elim m [
          | inr there ↦ follow-covers rows s2 few a there
          | inl here ↦
              let fewer : length s2.nodes < limit =
                omega (arith, few, ap length g.nodes, length-append s2.nodes g.new) in
              let seen = offer-covers (node row) s1 fewer in
              (g.visited a).1 (inl (subst (λ b. In b s2.visited) (names row ∙ sym here) seen))
        ]

  pub add_token_edges-Grows :
      (Among : Address → Type 0) (current : Address) (rows : List (Address × ℕ)) (s : Search)
      → Grows limit n Among s (add_token_edges q depth limit current rows s)
  unfolding add_token_edges add_edge
  add_token_edges-Grows Among current [] s = Grows-none limit n Among s s refl refl refl
  add_token_edges-Grows Among current (row ∷ rows) s =
      let s1 = add_edge q depth limit (token_edge q depth limit current row) s in
      Grows-trans limit n Among s s1 (add_token_edges q depth limit current rows s1)
        (Grows-none limit n Among s s1 refl refl refl) (add_token_edges-Grows Among current rows s1)
