-- ===== src/Pipeline/Rounds/Skipped.antt =====
-- The commit after one that failed: the error branch of the loop in src/main.rs.
use chain_lens.Base.{
  ℕ, suc, ◌+◌, ◌-◌, ◌<◌, ◌≡◌, ◌≢◌, sym, true, false, ok, arith, ne→bytes_eq, bytes_eq_refl,
}
use chain_lens.Rpc.{BlockResponse, EthClient}
use chain_lens.Decode.Errors.{Host}
use chain_lens.Store.Db.{Db}
use chain_lens.Reorg.Detect.{detect, find_ancestor, find_ancestor_from, stored_hash}
use chain_lens.Reorg.Rollback.{rollback}
use chain_lens.Pipeline.Committer.{reorg_event, commit_block}
use chain_lens.Pipeline.Committer.Stuck.{Serves, require_block-Serves}

module _ (client : EthClient) (chain : ℕ → BlockResponse) (serves : Serves client chain) (db : Db)
    (n d : ℕ) where
  -- The search for the ancestor from `n + 2` on finds the cursor's block in its second round.
  second_round :
      (m : ℕ)
      → stored_hash db ≡ (chain (suc n)).hash
      → (chain (suc (suc n))).hash ≢ stored_hash db
      → find_ancestor_from client db (suc (suc n)) d (suc (suc m)) 0 ≡ ok (suc n)
  unfolding find_ancestor_from
  second_round m at other = ground (
    arith,
    require_block-Serves client chain (suc (suc n)) false serves,
    require_block-Serves client chain (suc n) false serves,
    ne→bytes_eq (stored_hash db) (chain (suc (suc n))).hash (λ e. other (sym e)),
    bytes_eq_refl (chain (suc n)).hash,
    at,
  )

  find_ancestor-two :
      0 < d
      → stored_hash db ≡ (chain (suc n)).hash
      → (chain (suc (suc n))).hash ≢ stored_hash db
      → find_ancestor client db (suc (suc n)) d ≡ ok (suc n)
  unfolding find_ancestor
  find_ancestor-two deep at other =
      let two : d + 1 ≡ suc (suc (d - 1)) = omega arith in rw two (second_round (d - 1) at other)

  -- A commit that skips one block is taken for a reorganisation: if the cursor stands at a block of
  -- the chain that the client serves, committing the block after next undoes, by a rollback, what is
  -- above the cursor's block, when neither the hash between the two nor the parent hash that the
  -- incoming block names is the cursor's, and the depth is at least one.
  pub commit_block_skips :
      (host : Host) (now : ℕ)
      → 0 < d
      → stored_hash db ≡ (chain (suc n)).hash
      → (chain (suc (suc n))).hash ≢ stored_hash db
      → (chain (suc (suc (suc n)))).parent_hash ≢ stored_hash db
      → commit_block client host now db (suc (suc (suc n))) d
        ≡ ok (true, rollback (reorg_event (suc n) (suc (suc (suc n)))) now db)
  unfolding commit_block detect
  commit_block_skips host now deep at other parent = ground (
    arith,
    require_block-Serves client chain (suc (suc (suc n))) true serves,
    ne→bytes_eq (stored_hash db) (chain (suc (suc (suc n)))).parent_hash (λ e. parent (sym e)),
    find_ancestor-two deep at other,
  )
