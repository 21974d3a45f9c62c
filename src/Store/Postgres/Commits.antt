-- ===== src/Store/Postgres/Commits.antt =====
-- A successful `commit_block` of src/store/postgres.rs, table by table.
use chain_lens.Base.{some, ok, map, flat_map, ◌≡◌, arith}
use chain_lens.Domain.{IndexedBlock}
use chain_lens.Store.Table.{insert_all}
use chain_lens.Store.Db.{
  Db, to_i64, same_transaction, same_log, same_token_transfer, same_address_transaction,
}
use chain_lens.Store.Postgres.{
  block_row, insert_block_row, insert_block, transaction_row, transaction_in, insert_transactions,
  log_row, log_in, insert_logs, token_transfer_row, has_log, insert_token_transfers,
  address_transaction_rows, insert_address_transactions, unreferenced, update_cursor, commit_block,
}

-- `db'` is `db` after the six statements for `b`.
pub record Committed (b : IndexedBlock) (db db' : Db) : Type 0 where
  pub blocks : insert_block_row (block_row b.block) db.blocks ≡ ok db'.blocks
  pub transactions :
      insert_all same_transaction
        (transaction_in db'.blocks)
        (map transaction_row b.transactions)
        db.transactions
      ≡ ok db'.transactions
  pub logs : insert_all same_log (log_in db'.blocks) (map log_row b.logs) db.logs ≡ ok db'.logs
  pub token_transfers :
      insert_all same_token_transfer
        (has_log db'.logs)
        (map token_transfer_row b.token_transfers)
        db.token_transfers
      ≡ ok db'.token_transfers
  pub address_transactions :
      insert_all same_address_transaction unreferenced
        (flat_map address_transaction_rows b.transactions)
        db.address_transactions
      ≡ ok db'.address_transactions
  pub number : db'.last_indexed_number ≡ some (to_i64 b.block.number)
  pub hash : db'.last_indexed_hash ≡ some b.block.hash
  pub others : db' ≡ record db {
    blocks = db'.blocks;
    transactions = db'.transactions;
    logs = db'.logs;
    token_transfers = db'.token_transfers;
    address_transactions = db'.address_transactions;
    last_indexed_number = db'.last_indexed_number;
    last_indexed_hash = db'.last_indexed_hash;
  }

pub commit_block-Committed :
    (b : IndexedBlock) (db : Db) {db' : Db} → commit_block b db ≡ ok db' → Committed b db db'
unfolding commit_block insert_block insert_transactions insert_logs insert_token_transfers
    insert_address_transactions update_cursor
commit_block-Committed b db h = record {
  blocks = ground arith;
  transactions = ground arith;
  logs = ground arith;
  token_transfers = ground arith;
  address_transactions = ground arith;
  number = ground arith;
  hash = ground arith;
  others = ground arith;
}

pub Committed-commit_block :
    (b : IndexedBlock) (db db' : Db) → Committed b db db' → commit_block b db ≡ ok db'
unfolding commit_block insert_block insert_transactions insert_logs insert_token_transfers
    insert_address_transactions update_cursor
Committed-commit_block b db db' c = ground arith
