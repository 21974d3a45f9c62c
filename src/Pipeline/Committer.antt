-- ===== src/Pipeline/Committer.antt =====
-- Committing one block: src/pipeline/committer.rs, with the errors of src/pipeline/mod.rs. A
-- client answers the same way through one call, and metrics and log lines are left out. The result
-- is whether a rollback was made, and the new database; after an error the database is the old one.
pub mod Laws
pub mod Stuck
use chain_lens.Base.{
  ℕ, suc, ◌+◌, ◌-◌, Option, none, some, List, [], ◌∷◌, Bool, true, false, Outcome, ok, err, ◌>>=◌,
  ok_or, map_err, if◌then◌else◌, ltb, replicate,
}
use chain_lens.Domain.{Bytes, IndexedBlock}
use chain_lens.Rpc.{
  RpcError, deserialize, receipt_not_found, TransactionResponse, ReceiptResponse, BlockResponse,
  EthClient,
}
use chain_lens.Decode.Errors.{DecodeError, Host}
use chain_lens.Decode.Blocks.{decode_block}
use chain_lens.Store.Db.{Db}
use chain_lens.Store.Postgres as Postgres
use chain_lens.Store.Postgres.{StoreError}
use chain_lens.Reorg.Detect.{ReorgError, ReorgEvent, require_block, detect}
use chain_lens.Reorg.Rollback.{rollback, zero_hash}

pub data PipelineError : Type 0 where
  rpc : RpcError → PipelineError
  store : StoreError → PipelineError
  decode : DecodeError → PipelineError
  reorg : ReorgError → PipelineError
  cancelled : PipelineError

-- One round of `for _ in from..=to` for each number in the range.
unfoldable pub collect_orphaned_hashes : (from to : ℕ) → List Bytes
unfolding zero_hash
collect_orphaned_hashes from to = replicate (suc to - from) zero_hash

unfoldable pub reorg_event : (ancestor block_number : ℕ) → ReorgEvent
reorg_event ancestor block_number = record {
  common_ancestor = ancestor;
  depth = block_number - ancestor;
  orphaned_from = ancestor + 1;
  orphaned_to = block_number;
  orphaned_hashes = collect_orphaned_hashes ancestor block_number;
}

module _ (client : EthClient) where
  unfoldable pub transaction_receipts :
      List TransactionResponse → Outcome RpcError (List ReceiptResponse)
  transaction_receipts [] = ok []
  transaction_receipts (tx ∷ txs) = do
    answer ← client.get_transaction_receipt tx.hash
    receipt ← ok_or answer (deserialize (receipt_not_found tx.hash))
    receipts ← transaction_receipts txs
    ok (receipt ∷ receipts)

  unfoldable pub fetch_receipts : BlockResponse → ℕ → Outcome RpcError (List ReceiptResponse)
  unfolding transaction_receipts
  fetch_receipts block block_number =
      if client.supports_block_receipts
      then client.get_block_receipts block_number
      else transaction_receipts block.transactions

  -- The part after the check for a reorganisation.
  unfoldable pub index_block : Host → Db → BlockResponse → ℕ → Outcome PipelineError (Bool × Db)
  index_block host db block block_number = do
    receipts ← map_err rpc (fetch_receipts block block_number)
    indexed ← map_err decode (decode_block host block receipts)
    db' ← map_err store (Postgres.commit_block indexed db)
    ok (false, db')

  unfoldable pub commit_block :
      Host → (now : ℕ) → Db → (block_number max_reorg_depth : ℕ) → Outcome PipelineError (Bool × Db)
  commit_block host now db block_number max_reorg_depth = do
    block ← map_err rpc (require_block client block_number true)
    reorg_ancestor ←
        (if ltb 0 block_number
          then map_err reorg (detect client db block_number block.parent_hash max_reorg_depth)
          else ok none)
    elim reorg_ancestor [
      | some ancestor ↦ ok (true, rollback (reorg_event ancestor block_number) now db)
      | none ↦ index_block host db block block_number
    ]
