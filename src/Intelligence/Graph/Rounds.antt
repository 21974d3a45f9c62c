-- ===== src/Intelligence/Graph/Rounds.antt =====
-- One round of the loop of src/intelligence/graph.rs keeps its invariant.
use mathlib.Core.Path.{subst}
use mathlib.Core.List.{append_assoc, map-append}
use chain_lens.Base.{
  ℕ, suc, ◌+◌, ◌≤◌, ◌<◌, ◌≡◌, refl, sym, ap, ◌∙◌, ◌⊎◌, inl, inr, ◌↔◌, List, [], ◌∷◌, ◌++◌, length,
  arith, All-In, In, In-append_iff, In-append_right, length-append, In-map_inv, In-map, Nodup,
  Nodup-append,
}
use chain_lens.Domain.{Address}
use chain_lens.Intelligence.Graph.{Queries, Search, expand}
use chain_lens.Intelligence.Graph.Growth.{Grows, addresses, at_depth}
use chain_lens.Intelligence.Graph.Walks.{
  Links, Walk, expand-Grows, expand-covers, Ordered, Ordered-append,
}
use chain_lens.Intelligence.Graph.Invariant.{Inv}

module _ (q : Queries) (depth limit : ℕ) (center : Address) where
  module _ (s : Search) (u : Address) (c : ℕ) (rest : List (Address × ℕ))
      (head : s.queue ≡ (u, c) ∷ rest) (shallow : c < depth) (i : Inv q depth limit center s) where
    abbrev popped : Search
    popped = record s { queue = rest }

    abbrev after : Search
    after = expand q depth limit u c popped

    growth : Grows limit (c + 1) (Links q u) popped after
    growth = expand-Grows q depth limit u c popped

    abbrev done_after : List (Address × ℕ)
    done_after = i.done ++ (u, c) ∷ []

    new_queue : after.queue ≡ rest ++ at_depth (c + 1) growth.new
    new_queue = growth.queue

    history : done_after ++ after.queue ≡ (i.done ++ s.queue) ++ at_depth (c + 1) growth.new
    history =
        ap (λ l. done_after ++ l) new_queue
        ∙ append_assoc i.done ((u, c) ∷ []) (rest ++ at_depth (c + 1) growth.new)
        ∙ ap (λ l. i.done ++ (l ++ at_depth (c + 1) growth.new)) (sym head)
        ∙ sym (append_assoc i.done s.queue (at_depth (c + 1) growth.new))

    in_history :
        (p : Address × ℕ)
        → In p (done_after ++ after.queue)
          ↔ (In p (i.done ++ s.queue) ⊎ In p (at_depth (c + 1) growth.new))
    in_history p =
        subst (λ l. In p l ↔ (In p (i.done ++ s.queue) ⊎ In p (at_depth (c + 1) growth.new)))
          (sym history) (In-append_iff p (i.done ++ s.queue) (at_depth (c + 1) growth.new))

    bands : Ordered ((u, c) ∷ rest)
    bands = subst Ordered head i.ordered

    first : In (u, c) s.queue
    first = subst (In (u, c)) (sym head) (inl refl)

    -- A new entry of the history is at the depth `c + 1`.
    new_entry :
        (p : Address × ℕ)
        → In p (at_depth (c + 1) growth.new)
        → In p.0 (addresses growth.new) × (p.1 ≡ c + 1)
    new_entry p m =
        let (g, there, e) = In-map_inv (λ g. (g.address, c + 1)) p growth.new m in
        (
          subst (λ a. In a (addresses growth.new)) (sym (ap (λ r. r.0) e))
              (In-map (λ g. g.address) g growth.new there),
          ap (λ r. r.1) e,
        )

    front : (p : Address × ℕ) → In p done_after → p.1 ≤ c
    front p m = elim ((In-append_iff p i.done ((u, c) ∷ [])).0 m) [
      | inl old ↦ i.past p (u, c) old first
      | inr (inl here) ↦ omega (arith, ap (λ r. r.1) here)
      | inr (inr none) ↦ absurd none
    ]

    waiting : (r : Address × ℕ) → In r after.queue → (c ≤ r.1) × (r.1 ≤ c + 1)
    waiting r m =
        elim ((In-append_iff r rest (at_depth (c + 1) growth.new)).0 (subst (In r) new_queue m)) [
          | inl old ↦ All-In (λ p. (c ≤ p.1) × (p.1 ≤ c + 1)) r rest bands.0 old
          | inr new ↦ let e = (new_entry r new).1 in (omega (arith, e), omega (arith, e))
        ]

    marked_after :
        (a : Address) → In a after.visited → (d : ℕ) × In (a, d) (done_after ++ after.queue)
    marked_after a m = elim ((growth.visited a).0 m) [
      | inl old ↦ let (d, there) = i.marked a old in (d, (in_history (a, d)).1 (inl there))
      | inr new ↦
          let (g, there, e) = In-map_inv (λ g. g.address) a growth.new new in
          (
            c + 1,
            (in_history (a, c + 1)).1 (
                inr (
                  subst (λ b. In (b, c + 1) (at_depth (c + 1) growth.new)) (sym e)
                    (In-map (λ g. (g.address, c + 1)) g growth.new there))),
          )
    ]

    late : (p : Address × ℕ) → In p (done_after ++ after.queue) → p.1 ≤ c + 1
    late p m = elim ((In-append_iff p done_after after.queue).0 m) [
      | inl old ↦ omega (arith, front p old)
      | inr there ↦ (waiting p there).1
    ]

    walked_after :
        (p : Address × ℕ)
        → In p (done_after ++ after.queue)
        → In p.0 after.visited × Walk q center p.1 p.0 × (p.1 ≤ depth)
    walked_after p m = elim ((in_history p).0 m) [
      | inl old ↦
          let (seen, walk, few) = i.walked p old in ((growth.visited p.0).1 (inl seen), walk, few)
      | inr new ↦
          let (joined, e) = new_entry p new in
          let (_, walk, _) = i.walked (u, c) (In-append_right (u, c) i.done s.queue first) in
          let next : suc c ≡ p.1 = omega (arith, e) in
          (
            (growth.visited p.0).1 (inr joined),
            subst (λ k. Walk q center k p.0) next (u, walk, growth.offered p.0 joined),
            omega (arith, e, shallow),
          )
    ]

    fewer : length after.nodes < limit → length s.nodes < limit
    fewer few = omega (arith, few, ap length growth.nodes, length-append s.nodes growth.new)

    closed_after :
        length after.nodes < limit
        → (p : Address × ℕ) → In p done_after
        → (b : Address) → Links q p.0 b
        → (e : ℕ) × In (b, e) (done_after ++ after.queue) × (e ≤ p.1 + 1)
    closed_after few p m b link = elim ((In-append_iff p i.done ((u, c) ∷ [])).0 m) [
      | inl old ↦
          let (e, there, close) = i.closed (fewer few) p old b link in
          (e, (in_history (b, e)).1 (inl there), close)
      | inr (inl here) ↦
          let from_u : Links q u b = subst (λ a. Links q a b) (ap (λ r. r.0) here) link in
          let (e, there) = marked_after b (expand-covers q depth limit u c popped few b from_u) in
          (e, there, omega (arith, late (b, e) there, ap (λ r. r.1) here))
      | inr (inr none) ↦ absurd none
    ]

    node_addresses : addresses after.nodes ≡ addresses s.nodes ++ addresses growth.new
    node_addresses = ap addresses growth.nodes ∙ map-append (λ g. g.address) s.nodes growth.new

    all_addresses :
        (a : Address)
        → In a (addresses after.nodes) ↔ (In a (addresses s.nodes) ⊎ In a (addresses growth.new))
    all_addresses a =
        subst (λ l. In a l ↔ (In a (addresses s.nodes) ⊎ In a (addresses growth.new)))
          (sym node_addresses) (In-append_iff a (addresses s.nodes) (addresses growth.new))

    known_after : (a : Address) → In a after.visited ↔ ((a ≡ center) ⊎ In a (addresses after.nodes))
    known_after a = (
      λ m. elim ((growth.visited a).0 m) [
        | inl old ↦ elim ((i.known a).0 old) [
          | inl same ↦ inl same
          | inr node ↦ inr ((all_addresses a).1 (inl node))
        ]
        | inr new ↦ inr ((all_addresses a).1 (inr new))
      ],
      λ m. elim m [
        | inl same ↦ (growth.visited a).1 (inl ((i.known a).1 (inl same)))
        | inr node ↦ elim ((all_addresses a).0 node) [
          | inl old ↦ (growth.visited a).1 (inl ((i.known a).1 (inr old)))
          | inr new ↦ (growth.visited a).1 (inr new)
        ]
      ],
    )

    pub expand-Inv : Inv q depth limit center after
    expand-Inv = record {
      done = done_after;
      source = (in_history (center, 0)).1 (inl i.source);
      walked = walked_after;
      marked = marked_after;
      known = known_after;
      distinct = subst Nodup (sym node_addresses) (
          Nodup-append (addresses s.nodes) (addresses growth.new) i.distinct growth.once
            (λ a old new. growth.fresh a new ((i.known a).1 (inr old))));
      not_center = λ m. elim ((all_addresses center).0 m) [
        | inl old ↦ i.not_center old
        | inr new ↦ growth.fresh center new ((i.known center).1 (inl refl))
      ];
      room = growth.room i.room;
      ordered = subst Ordered (sym new_queue) (Ordered-append c rest growth.new bands.0 bands.1);
      past = λ p r m l. omega (arith, front p m, (waiting r l).0);
      closed = closed_after;
    }
