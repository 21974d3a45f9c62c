-- ===== src/Pipeline/Committer/Stuck.antt =====
-- The search for an ancestor from a cursor whose hash is not on the chain: src/reorg/detect.rs as
-- src/pipeline/committer.rs calls it, and the hashes that a rollback leaves.
use mathlib.Core.Path.{subst}
use chain_lens.Base.{
  zero, ℕ, suc, ◌+◌, ◌-◌, ◌%◌, ◌^◌, ◌≤◌, ◌<◌, none, some, [], Bool, true, false, ok, err, replicate,
  ◌≡◌, ◌≢◌, refl, sym, arith, ne→bytes_eq,
}
use chain_lens.Domain.{Bytes}
use chain_lens.Rpc.{BlockResponse, EthClient}
use chain_lens.Decode.Errors.{Host}
use chain_lens.Store.Db.{Db}
use chain_lens.Store.Postgres.{last_indexed_block}
use chain_lens.Reorg.Detect.{depth_exceeded, require_block, detect, stored_hash}
use chain_lens.Reorg.Detect.Ancestor.{find_ancestor_misses, find_ancestor-Meets}
use chain_lens.Reorg.Rollback.{rollback, rewind_cursor, first_hash, zero_hash}
use chain_lens.Pipeline.Committer.{reorg, reorg_event, commit_block, collect_orphaned_hashes}
use chain_lens.Pipeline.Committer.Laws.{commit_block-Describes}

-- The client serves this chain, whole blocks or not.
pub record Serves (client : EthClient) (chain : ℕ → BlockResponse) : Type 0 where
  pub answers : (n : ℕ) (full : Bool) → client.get_block_by_number n full ≡ ok (some (chain n))

-- No block of the chain has the hash, nor has the parent of block `n`.
pub record Unknown (chain : ℕ → BlockResponse) (n : ℕ) (hash : Bytes) : Type 0 where
  pub own : (m : ℕ) → (chain m).hash ≢ hash
  pub parent : (chain n).parent_hash ≢ hash

pub require_block-Serves :
    (client : EthClient) (chain : ℕ → BlockResponse) (n : ℕ) (full : Bool)
    → Serves client chain
    → require_block client n full ≡ ok (chain n)
unfolding require_block
require_block-Serves client chain n full s = rw (s.answers n full)

-- What the cursor holds after a rollback that the committer makes.
first_hash-replicate : (n : ℕ) → 0 < n → first_hash (replicate n zero_hash) ≡ zero_hash
unfolding first_hash
first_hash-replicate zero h = absurd (omega arith)
first_hash-replicate (suc n) h = refl

stored_hash-rollback :
    (a n now : ℕ) (db : Db) → a ≤ n → stored_hash (rollback (reorg_event a n) now db) ≡ zero_hash
unfolding stored_hash last_indexed_block rollback rewind_cursor reorg_event collect_orphaned_hashes
stored_hash-rollback a n now db h = ground (arith, first_hash-replicate (suc n - a) (omega arith))

-- A database in which no block was ever committed has no hash at all.
stored_hash-empty : (db : Db) → last_indexed_block db ≡ none → stored_hash db ≡ []
unfolding stored_hash
stored_hash-empty db e = ground arith

module _ (client : EthClient) (chain : ℕ → BlockResponse) (serves : Serves client chain)
    (host : Host) where
  -- If the client serves a chain, and the cursor's hash is neither the hash of a block of it nor
  -- the parent hash of the block to commit, whose number is more than `max_reorg_depth + 1`, then
  -- the commit fails with the reorganisation too deep.
  pub commit_block-Unknown :
      (now : ℕ) (db : Db) (n d : ℕ)
      → Unknown chain n (stored_hash db)
      → d + 1 < n
      → commit_block client host now db n d ≡ err (reorg (depth_exceeded ((d + 1) % 2 ^ 64) d))
  unfolding commit_block detect
  commit_block-Unknown now db n d u deep =
      let missed = find_ancestor_misses client db (n - 1) d (omega arith) (λ m low high.
        (chain m, require_block-Serves client chain m false serves, (omega arith), u.own m)) in
      ground (
        arith,
        require_block-Serves client chain n true serves,
        ne→bytes_eq (stored_hash db) (chain n).parent_hash (λ e. u.parent (sym e)),
      )

  -- A fresh database cannot be filled from the middle of the chain: while no block is committed,
  -- committing any block whose number is more than `max_reorg_depth + 1` fails, if the client serves
  -- a chain without empty hashes.
  pub commit_block_fresh :
      (now : ℕ) (db : Db) (n d : ℕ)
      → last_indexed_block db ≡ none
      → Unknown chain n []
      → d + 1 < n
      → commit_block client host now db n d ≡ err (reorg (depth_exceeded ((d + 1) % 2 ^ 64) d))
  commit_block_fresh now db n d fresh u deep =
      commit_block-Unknown now db n d (subst (Unknown chain n) (sym (stored_hash-empty db fresh)) u)
        deep

  -- After one rollback by the committer, made with any client, the database accepts no block any
  -- more whose number is more than `max_reorg_depth + 1`: the commit of every such block fails, if
  -- the client serves a chain in which no block has a hash of zeros, nor that block a parent hash of
  -- zeros.
  pub commit_block_after_rollback :
      (earlier : EthClient) (now then_now : ℕ) (db : Db) {db' : Db} (m n d : ℕ)
      → commit_block earlier host now db m d ≡ ok (true, db')
      → Unknown chain n zero_hash
      → d + 1 < n
      → commit_block client host then_now db' n d
        ≡ err (reorg (depth_exceeded ((d + 1) % 2 ^ 64) d))
  commit_block_after_rollback earlier now then_now db {db'} m n d h u deep =
      let (_, a, _, above, _, found, e) =
        commit_block-Describes earlier host now db m d true db' h in
      let low = (find_ancestor-Meets earlier db (m - 1) d found).0 in
      let zeros : stored_hash db' ≡ zero_hash =
        rw e (stored_hash-rollback a m now db (omega arith)) in
      commit_block-Unknown then_now db' n d (subst (Unknown chain n) (sym zeros) u) deep
