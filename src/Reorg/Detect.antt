-- ===== src/Reorg/Detect.antt =====
-- Finding a reorganisation and its common ancestor: src/reorg/detect.rs, with the types of mod.rs.
pub mod Ancestor
use mathlib.Core.Option
use chain_lens.Base.{
  ℕ, zero, suc, ◌+◌, ◌-◌, ◌%◌, ◌^◌, Option, none, some, List, [], Bool, true, false, ◌||◌, Outcome,
  ok, err, ◌>>=◌, ok_or, map_err, if◌then◌else◌, ltb, ◌==◌, bytes_eq,
}
use chain_lens.Domain.{Bytes, B256}
use chain_lens.Rpc.{RpcError, deserialize, block_not_found, BlockResponse, EthClient}
use chain_lens.Store.Db.{Db}
use chain_lens.Store.Postgres.{StoreError, last_indexed_block}

pub data ReorgError : Type 0 where
  depth_exceeded : (depth max_depth : ℕ) → ReorgError
  rpc : RpcError → ReorgError
  store : StoreError → ReorgError

pub record ReorgEvent : Type 0 where
  pub common_ancestor : ℕ
  pub depth : ℕ
  pub orphaned_from : ℕ
  pub orphaned_to : ℕ
  pub orphaned_hashes : List Bytes

-- `store.last_indexed_block().await?.unwrap_or((0, vec![])).1`
unfoldable pub stored_hash : Db → Bytes
unfolding last_indexed_block
stored_hash db = (Option.get_or (last_indexed_block db) (0, [])).1

-- A block that has to be there.
unfoldable pub require_block : EthClient → ℕ → Bool → Outcome RpcError BlockResponse
require_block client number full = do
  answer ← client.get_block_by_number number full
  ok_or answer (deserialize (block_not_found number))

module _ (client : EthClient) (db : Db) (start max_depth : ℕ) where
  -- The loop, with `rounds` left and `depth` the next to try.
  unfoldable pub find_ancestor_from : (rounds depth : ℕ) → Outcome ReorgError ℕ
  find_ancestor_from zero depth = err (depth_exceeded ((max_depth + 1) % 2 ^ 64) max_depth)
  find_ancestor_from (suc rounds) depth =
      let rest = find_ancestor_from rounds (depth + 1) in
      if ltb start depth
      then err (depth_exceeded depth max_depth)
      else (map_err rpc (require_block client (start - depth) false) >>= λ block.
          if (start - depth) == 0 || bytes_eq (stored_hash db) block.hash
          then ok (start - depth)
          else rest)

  unfoldable pub find_ancestor : Outcome ReorgError ℕ
  unfolding find_ancestor_from
  find_ancestor = find_ancestor_from (max_depth + 1) 0

unfoldable pub detect : EthClient → Db → ℕ → B256 → ℕ → Outcome ReorgError (Option ℕ)
detect client db incoming_number incoming_parent_hash max_depth =
    if incoming_number == 0
    then ok none
    else if (incoming_number - 1) == 0 || bytes_eq (stored_hash db) incoming_parent_hash
    then ok none
    else (find_ancestor client db (incoming_number - 1) max_depth >>= λ ancestor.
        ok (some ancestor))
