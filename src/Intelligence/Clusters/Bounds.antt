-- ===== src/Intelligence/Clusters/Bounds.antt =====
-- How far `find_clusters` of src/intelligence/clustering.rs goes.
use mathlib.Core.Path.{subst}
use chain_lens.Base.{
  ◌⊎◌, ap, Option-cases, ok-injective, ℕ, zero, suc, ◌+◌, ◌-◌, ◌*◌, ◌≤◌, ◌<◌, ◌≡◌, refl, some, List,
  [], ◌∷◌, ◌++◌, not, any, bytes_eq, leb, length, length-append, Bool-cases, Outcome-cases, inl,
  inr, arith, trim_0x, ℤ, pos, negsuc, Outcome, ok, ◌>>=◌, >>=-eq-ok,
}
use chain_lens.Domain.{Bytes, Address}
use chain_lens.Intelligence.Actions.{Formats}
use chain_lens.Intelligence.Clusters.{
  AddressCluster, ClusterQueries, Cluster, deep_enough, weight, steps_of, admit, admit_all, visit,
  grow, summarize, find_clusters,
}
use chain_lens.Sql.{SqlError}

-- The rounds that the queue may still cost, for a depth limit.
abbrev cost : ℕ → List (Address × ℕ) → ℕ
cost m [] = 0
cost m ((_, depth) ∷ queue) = weight (m - depth) + cost m queue

cost-append :
    (m : ℕ) (queue : List (Address × ℕ)) (addr : Address) (depth : ℕ)
    → cost m (queue ++ (addr, depth) ∷ []) ≡ cost m queue + weight (m - depth)
cost-append m [] addr depth = omega arith
cost-append m (_ ∷ queue) addr depth = omega (arith, cost-append m queue addr depth)

times_add : (k n w : ℕ) → (k + n) * w ≡ k * w + n * w
times_add k n w = grind arith

times_le : (k n w : ℕ) → k ≤ n → k * w ≤ n * w
times_le k n w h = grind arith

weight_pos : (r : ℕ) → 1 ≤ weight r
unfolding weight
weight_pos zero = omega arith
weight_pos (suc r) = omega arith

-- `k` addresses more, each with its place in the queue.
abbrev Grown : ℕ → ℕ → ℕ → Cluster → Cluster → Type 0
Grown m depth k c c' =
    (length c'.addresses ≡ length c.addresses + k)
    × (length c'.queue ≡ length c.queue + k)
    × (cost m c'.queue ≡ cost m c.queue + k * weight (m - (depth + 1)))

module _ (fmt : Formats) (m depth : ℕ) where
  admit-Grown :
      (row : Address × ℕ) (c : Cluster)
      → (k : ℕ) × (k ≤ 1) × Grown m depth k c (admit fmt depth row c)
  unfolding admit
  admit-Grown (addr, cnt) c = elim (Bool-cases (not (any (bytes_eq addr) c.visited))) [
    | inr known ↦ rw known (0, omega arith, (omega arith, omega arith, omega arith))
    | inl new ↦ rw new (
      1,
      omega arith,
      (
        omega (arith, length-append {0} c.addresses (_ ∷ [])),
        omega (arith, length-append {0} c.queue ((addr, depth + 1) ∷ [])),
        omega (arith, cost-append m c.queue addr (depth + 1)),
      ),
    )
  ]

  admit_all-Grown :
      (rows : List (Address × ℕ)) (c : Cluster)
      → (k : ℕ) × (k ≤ length rows) × Grown m depth k c (admit_all fmt depth rows c)
  unfolding admit_all
  admit_all-Grown [] c = (0, omega arith, (omega arith, omega arith, omega arith))
  admit_all-Grown (row ∷ rows) c =
      let (k, few, grown) = admit-Grown row c in
      let (k', few', grown') = admit_all-Grown rows (admit fmt depth row c) in
      (
        k + k',
        omega (arith, few, few'),
        (
          omega (arith, grown.0, grown'.0),
          omega (arith, grown.1, grown'.1),
          omega (arith, grown.2, grown'.2, times_add k k' (weight (m - (depth + 1)))),
        ),
      )

deep_enough_lem :
    (depth : ℕ) (max_depth : ℤ) → deep_enough depth max_depth ≡ leb (steps_of max_depth) depth
unfolding deep_enough
deep_enough_lem depth (pos m) = refl
deep_enough_lem depth (negsuc m) = ground arith

weight_step : (m depth : ℕ) → depth < m → weight (m - depth) ≡ 1 + 20 * weight (m - (depth + 1))
unfolding weight
weight_step m depth h = let e : m - depth ≡ suc (m - (depth + 1)) = omega (arith, h) in rw e refl

cost-ge : (m : ℕ) (queue : List (Address × ℕ)) → length queue ≤ cost m queue
cost-ge m [] = omega arith
cost-ge m ((_, depth) ∷ queue) = omega (arith, cost-ge m queue, weight_pos (m - depth))

weight_whole : (m : ℕ) → weight (m - 0) ≡ weight m
weight_whole m = ap weight (omega arith)

-- Both queries name at most ten addresses.
abbrev pub Limited : ClusterQueries → Type 0
Limited q =
    (addr : Address) (rows : List (Address × ℕ))
    → ((q.related addr ≡ ok rows) ⊎ (q.related_from addr ≡ ok rows))
    → length rows ≤ 10

module _ (fmt : Formats) (q : ClusterQueries) (limited : Limited q) where
  visit-Grown :
      (m depth : ℕ) (current : Address) (c : Cluster) {c' : Cluster}
      → visit fmt q current depth c ≡ ok c'
      → (k : ℕ) × (k ≤ 20) × Grown m depth k c c'
  unfolding visit
  visit-Grown m depth current c h =
      let (rows, e, h1) = >>=-eq-ok (q.related current) _ h in
      let (rows_from, e', h2) = >>=-eq-ok (q.related_from current) _ h1 in
      let (k, few, grown) = admit_all-Grown fmt m depth rows c in
      let (k', few', grown') = admit_all-Grown fmt m depth rows_from (admit_all fmt depth rows c) in
      (
        k + k',
        omega (arith, few, few', limited current rows (inl e), limited current rows_from (inr e')),
        subst (λ d. Grown m depth (k + k') c d) (ok-injective h2)
            (
              omega (arith, grown.0, grown'.0),
              omega (arith, grown.1, grown'.1),
              omega (arith, grown.2, grown'.2, times_add k k' (weight (m - (depth + 1)))),
            ),
      )

  -- Enough fuel ends the loop, with no more addresses than the weight of the depth limit.
  grow-ends :
      (max_depth : ℤ) (fuel : ℕ) (visited : List Address) (queue : List (Address × ℕ))
      (addresses : List Bytes) (total : ℕ)
      → cost (steps_of max_depth) queue < fuel
      → length addresses + cost (steps_of max_depth) queue
        ≤ weight (steps_of max_depth) + length queue
      → (r : Outcome SqlError Cluster) × (grow fmt q fuel max_depth (record {
        visited = visited;
        queue = queue;
        addresses = addresses;
        total_interactions = total;
      })
          ≡ some r)
        × ((c : Cluster) → r ≡ ok c → length c.addresses ≤ weight (steps_of max_depth))
  unfolding grow
  grow-ends max_depth zero visited queue addresses total below kept = absurd (omega (arith, below))
  grow-ends max_depth (suc fuel) visited [] addresses total below kept = (
    _,
    refl,
    λ c e.
        subst (λ (d : Cluster). length d.addresses ≤ weight (steps_of max_depth)) (ok-injective e)
          (omega (arith, kept)),
  )
  grow-ends max_depth (suc fuel) visited ((current, depth) ∷ queue) addresses total below kept =
      let m = steps_of max_depth in
      elim (Bool-cases (deep_enough depth max_depth)) [
        | inl far ↦
            rw (grow, far)
              (
                _,
                refl,
                λ c e.
                    subst (λ (d : Cluster). length d.addresses ≤ weight m) (ok-injective e)
                      (omega (arith, kept, cost-ge m queue, weight_pos (m - depth))),
              )
        | inr near ↦
            let c : Cluster = record {
              visited = visited;
              queue = queue;
              addresses = addresses;
              total_interactions = total;
            } in
            elim (Outcome-cases (visit fmt q current depth c)) [
              | inr (inl stop) ↦ rw (grow, near, stop) (_, refl, λ c e. cc)
              | inr (inr (e, stop)) ↦ rw (grow, near, stop) (_, refl, λ c e. cc)
              | inl (c', went) ↦
                  let (k, few, grown) = visit-Grown m depth current c went in
                  let step =
                    weight_step m depth (ground (arith, near, deep_enough_lem depth max_depth)) in
                  let some_more = times_le k 20 (weight (m - (depth + 1))) few in
                  rw (grow, near, went)
                    (grow-ends max_depth fuel c'.visited c'.queue c'.addresses c'.total_interactions
                      (omega (arith, below, grown.2, step, some_more))
                      (omega (arith, kept, grown.0, grown.1, grown.2, step, some_more)))
            ]
      ]

  -- When both queries of a round name at most ten addresses, the search ends, with a result or an
  -- error, within the rounds that `find_clusters` allows it, and a cluster has at most
  -- 1 + 20 + … + 20 ^ d addresses for a depth limit of d, which counts as 0 if it is negative.
  pub find_clusters_ends :
      (address : Bytes) (max_depth : ℤ)
      → (r : Outcome SqlError AddressCluster) × (find_clusters fmt q address max_depth ≡ some r)
        × ((c : AddressCluster) → r ≡ ok c → length c.addresses ≤ weight (steps_of max_depth))
  unfolding find_clusters summarize
  find_clusters_ends address max_depth = elim (Option-cases (fmt.hex_decode (trim_0x address))) [
    | inl invalid ↦ rw (find_clusters, invalid) (_, refl, λ c e. cc)
    | inr (addr, decoded) ↦
        let (grown, ends, small) =
          grow-ends max_depth (suc (weight (steps_of max_depth))) (addr ∷ []) ((addr, 0) ∷ [])
            (address ∷ []) 0 (omega (arith, weight_whole (steps_of max_depth)))
            (omega (arith, weight_whole (steps_of max_depth))) in
        rw (find_clusters, decoded, ends)
          (
            grown >>= summarize fmt q addr,
            refl,
            λ c e.
                let (found, is, h) = >>=-eq-ok grown (summarize fmt q addr) e in
                let (seen, _, h') = >>=-eq-ok (q.first_last addr) _ h in
                subst (λ (d : AddressCluster). length d.addresses ≤ weight (steps_of max_depth))
                  (ok-injective h') (small found is),
          )
  ]
