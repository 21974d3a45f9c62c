-- ===== src/Store/Postgres/Idempotent.antt =====
-- Committing a block again, as after a restart: src/store/postgres.rs.
use chain_lens.Base.{List, true, ok, any, map, flat_map, ◌≡◌, refl, arith, ==_refl, bytes_eq_refl}
use chain_lens.Domain.{IndexedBlock, Block, Transaction, Log, TokenTransfer}
use chain_lens.Store.Table.Laws.{insert_all-Holds, insert_all_no_news}
use chain_lens.Store.Db.{
  Db, AddressTransaction, same_block, same_transaction, same_log, same_token_transfer,
  same_address_transaction,
}
use chain_lens.Store.Postgres.{
  block_row, insert_block_row, transaction_row, transaction_in, log_row, log_in, token_transfer_row,
  has_log, address_transaction_rows, unreferenced, commit_block,
}
use chain_lens.Store.Postgres.Commits.{commit_block-Committed, Committed-commit_block}

pub same_block_refl : (b : Block) → same_block b b ≡ true
unfolding same_block
same_block_refl b = ==_refl b.number

pub same_transaction_refl : (t : Transaction) → same_transaction t t ≡ true
unfolding same_transaction
same_transaction_refl t = bytes_eq_refl t.hash

pub same_log_refl : (l : Log) → same_log l l ≡ true
unfolding same_log
same_log_refl l = ground arith

pub same_token_transfer_refl : (t : TokenTransfer) → same_token_transfer t t ≡ true
unfolding same_token_transfer
same_token_transfer_refl t = ground arith

pub same_address_transaction_refl : (a : AddressTransaction) → same_address_transaction a a ≡ true
unfolding same_address_transaction
same_address_transaction_refl a = ground (arith, bytes_eq_refl a.address)

-- The block is there afterwards, so a second statement finds it.
insert_block_row_again :
    (row : Block) (blocks : List Block) {blocks' : List Block}
    → insert_block_row row blocks ≡ ok blocks'
    → (any (same_block row) blocks' ≡ true) × (insert_block_row row blocks' ≡ ok blocks')
unfolding insert_block_row
insert_block_row_again row blocks h = ground (arith, same_block_refl row)

-- A commit that succeeds can be repeated: committing the same block to the database that it left
-- succeeds and leaves that database as it is, in every table and in the cursor.
pub commit_block_again :
    (b : IndexedBlock) (db : Db) {db' : Db}
    → commit_block b db ≡ ok db'
    → commit_block b db' ≡ ok db'
commit_block_again b db {db'} h =
    let c = commit_block-Committed b db h in
    Committed-commit_block b db' db' (record {
      blocks = (insert_block_row_again (block_row b.block) db.blocks c.blocks).1;
      transactions =
          insert_all_no_news same_transaction (transaction_in db'.blocks)
            (map transaction_row b.transactions) db'.transactions
            (insert_all-Holds same_transaction (transaction_in db'.blocks)
              (map transaction_row b.transactions) db.transactions same_transaction_refl
              c.transactions);
      logs = insert_all_no_news same_log (log_in db'.blocks) (map log_row b.logs) db'.logs (
          insert_all-Holds same_log (log_in db'.blocks) (map log_row b.logs) db.logs same_log_refl
            c.logs);
      token_transfers =
          insert_all_no_news same_token_transfer (has_log db'.logs)
            (map token_transfer_row b.token_transfers) db'.token_transfers
            (insert_all-Holds same_token_transfer (has_log db'.logs)
              (map token_transfer_row b.token_transfers) db.token_transfers same_token_transfer_refl
              c.token_transfers);
      address_transactions =
          insert_all_no_news same_address_transaction unreferenced
            (flat_map address_transaction_rows b.transactions) db'.address_transactions
            (insert_all-Holds same_address_transaction unreferenced
              (flat_map address_transaction_rows b.transactions) db.address_transactions
              same_address_transaction_refl c.address_transactions);
      number = c.number;
      hash = c.hash;
      others = refl;
    })
