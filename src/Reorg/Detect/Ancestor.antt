-- ===== src/Reorg/Detect/Ancestor.antt =====
-- The search for a common ancestor in src/reorg/detect.rs.
use native.Mathlib.Decide.{ℕ_discrete}
use mathlib.Core.Path.{subst}
use chain_lens.Base.{
  Outcome-cases, ℕ, zero, suc, ◌+◌, ◌-◌, ◌%◌, ◌^◌, ◌≤◌, ◌<◌, false, ok, err, ◌==◌, bytes_eq,
  bytes_eq→eq, ◌≡◌, ◌≢◌, refl, ◌⊎◌, inl, inr, Bool-cases, arith, bytes_eq_iff, ◌||◌, ltb,
}
use chain_lens.Rpc.{BlockResponse, EthClient}
use chain_lens.Store.Db.{Db}
use chain_lens.Reorg.Detect.{
  depth_exceeded, stored_hash, require_block, find_ancestor_from, find_ancestor,
}

module _ (client : EthClient) (db : Db) (start max_depth : ℕ) where
  -- The client answers with the cursor's block at this height, or the height is the genesis.
  abbrev pub Meets : ℕ → Type 0
  Meets n =
      (block : BlockResponse) × (require_block client n false ≡ ok block)
      × ((n ≡ 0) ⊎ (block.hash ≡ stored_hash db))

  -- The client answers with another block.
  abbrev pub Differs : ℕ → Type 0
  Differs n =
      (block : BlockResponse) × (require_block client n false ≡ ok block)
      × (n ≢ 0)
      × (block.hash ≢ stored_hash db)

  find_ancestor_from-Meets :
      (rounds depth : ℕ) {n : ℕ}
      → find_ancestor_from client db start max_depth rounds depth ≡ ok n
      → (d : ℕ) × (depth ≤ d)
        × (d < depth + rounds)
        × (d ≤ start)
        × (n ≡ start - d)
        × Meets n
        × ((k : ℕ) → depth ≤ k → k < d → Differs (start - k))
  unfolding find_ancestor_from
  find_ancestor_from-Meets zero depth h = cc
  find_ancestor_from-Meets (suc rounds) depth {n} h = elim (Bool-cases (ltb start depth)) [
    | inl past ↦ absurd (ground arith)
    | inr near ↦ elim (Outcome-cases (require_block client (start - depth) false)) [
      | inr (inl stop) ↦ absurd (ground arith)
      | inr (inr (e, stop)) ↦ absurd (ground arith)
      | inl (block, answer) ↦
          elim (Bool-cases ((start - depth) == 0 || bytes_eq (stored_hash db) block.hash)) [
            | inl hit ↦
                let at : n ≡ start - depth = ground arith in
                let meets : (start - depth ≡ 0) ⊎ (block.hash ≡ stored_hash db) =
                  ground (arith, bytes_eq→eq (stored_hash db) block.hash) in
                (
                  depth,
                  omega arith,
                  omega arith,
                  ground arith,
                  at,
                  rw at (block, answer, meets),
                  λ k a b. absurd (omega arith),
                )
            | inr miss ↦
                let differs : (start - depth ≢ 0) × (block.hash ≢ stored_hash db) =
                  (ground arith, ground (arith, bytes_eq_iff (stored_hash db) block.hash)) in
                let (d, low, high, fits, at, meets, between) =
                  find_ancestor_from-Meets rounds (depth + 1) {n = n} (ground arith) in
                (
                  d,
                  omega arith,
                  omega arith,
                  fits,
                  at,
                  meets,
                  λ k a b. elim (ℕ_discrete depth k) [
                    | yes e ↦ rw (← e) (block, answer, differs.0, differs.1)
                    | no ne ↦ between k (omega arith) b
                  ],
                )
          ]
    ]
  ]

  -- If the search returns `n`, then `n` is at most `max_depth` below `start`, the client's block
  -- there has the cursor's hash or `n` is 0, and at every height above it, up to `start`, the client
  -- has a block with another hash: `n` is the first height that meets the test, going down.
  pub find_ancestor-Meets :
      {n : ℕ}
      → find_ancestor client db start max_depth ≡ ok n
      → (n ≤ start) × (start ≤ n + max_depth) × Meets n × ((m : ℕ) → n < m → m ≤ start → Differs m)
  unfolding find_ancestor
  find_ancestor-Meets h =
      let (d, low, high, fits, at, meets, between) = find_ancestor_from-Meets (max_depth + 1) 0 h in
      (
        omega arith,
        omega arith,
        meets,
        λ m above below.
            let e : start - (start - m) ≡ m = omega arith in
            subst Differs e (between (start - m) (omega arith) (omega arith)),
      )

  find_ancestor_from_misses :
      (rounds depth : ℕ)
      → depth + rounds ≤ start
      → ((k : ℕ) → depth ≤ k → k < depth + rounds → Differs (start - k))
      → find_ancestor_from client db start max_depth rounds depth
        ≡ err (depth_exceeded ((max_depth + 1) % 2 ^ 64) max_depth)
  unfolding find_ancestor_from
  find_ancestor_from_misses zero depth room h = refl
  find_ancestor_from_misses (suc rounds) depth room h =
      let (block, answer, above, other) = h depth (omega arith) (omega arith) in
      ground (
        arith,
        bytes_eq_iff (stored_hash db) block.hash,
        find_ancestor_from_misses rounds (depth + 1) (omega arith)
            (λ k a b. h k (omega arith) (omega arith)),
      )

  -- If the client has a block with another hash than the cursor's at every height that the search
  -- visits, and genesis is out of reach, the search fails with the depth exceeded.
  pub find_ancestor_misses :
      max_depth < start
      → ((m : ℕ) → m ≤ start → start ≤ m + max_depth → Differs m)
      → find_ancestor client db start max_depth
        ≡ err (depth_exceeded ((max_depth + 1) % 2 ^ 64) max_depth)
  unfolding find_ancestor
  find_ancestor_misses room h =
      find_ancestor_from_misses (max_depth + 1) 0 (omega arith)
        (λ k a b. h (start - k) (omega arith) (omega arith))
