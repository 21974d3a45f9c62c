-- ===== src/Intelligence/Graph/Invariant.antt =====
-- The invariant of the loop of src/intelligence/graph.rs.
use mathlib.Core.Path.{subst}
use chain_lens.Base.{
  ℕ, ◌+◌, ◌≤◌, ◌<◌, ◌≡◌, refl, sym, ap, ◌⊎◌, inl, inr, ◌↔◌, List, [], ◌++◌, length, arith, In,
  Nodup,
}
use chain_lens.Domain.{Address}
use chain_lens.Intelligence.Graph.{Queries, Search, start}
use chain_lens.Intelligence.Graph.Growth.{addresses}
use chain_lens.Intelligence.Graph.Walks.{Links, Walk, Ordered}

module _ (q : Queries) (depth limit : ℕ) (center : Address) where
  -- `done` is what left the queue; an address is known when it is in the history, `done` and the
  -- queue, at the length of a walk to it.
  pub record Inv (s : Search) : Type 0 where
    pub done : List (Address × ℕ)
    pub source : In (center, 0) (done ++ s.queue)
    pub walked :
        (p : Address × ℕ)
        → In p (done ++ s.queue)
        → In p.0 s.visited × Walk q center p.1 p.0 × (p.1 ≤ depth)
    pub marked : (a : Address) → In a s.visited → (d : ℕ) × In (a, d) (done ++ s.queue)
    pub known : (a : Address) → In a s.visited ↔ ((a ≡ center) ⊎ In a (addresses s.nodes))
    pub distinct : Nodup (addresses s.nodes)
    pub not_center : ¬ In center (addresses s.nodes)
    pub room : length s.nodes ≤ limit
    pub ordered : Ordered s.queue
    pub past : (p r : Address × ℕ) → In p done → In r s.queue → p.1 ≤ r.1
    pub closed :
        length s.nodes < limit
        → (p : Address × ℕ) → In p done
        → (b : Address) → Links q p.0 b
        → (e : ℕ) × In (b, e) (done ++ s.queue) × (e ≤ p.1 + 1)

  pub start-Inv : Inv (start center)
  unfolding start
  start-Inv = record {
    done = [];
    source = inl refl;
    walked = λ p m. elim m [
      | inl here ↦ (
        inl (ap (λ r. r.0) here),
        subst (λ r. Walk q center r.1 r.0) (sym here) refl,
        subst (λ r. r.1 ≤ depth) (sym here) (omega arith),
      )
      | inr none ↦ absurd none
    ];
    marked = λ a m. elim m [ inl here ↦ (0, inl (ap (λ b. (b, 0)) here)) | inr none ↦ absurd none ];
    known = λ a. (
      λ m. elim m [ inl here ↦ inl here | inr none ↦ absurd none ],
      λ m. elim m [ inl here ↦ inl here | inr none ↦ absurd none ],
    );
    distinct = tt;
    not_center = λ m. m;
    room = omega arith;
    ordered = (tt, tt);
    past = λ p r m l. absurd m;
    closed = λ few p m. absurd m;
  }
