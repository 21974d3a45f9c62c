-- ===== src/Tests/Storing.antt =====
-- The store and the rollback at a concrete block.
use chain_lens.Base.{bytes_eq, ℕ, ◌+◌, ◌≤◌, ◌≡◌, refl, some, none, [], ◌∷◌, ok, err, panic, length}
use chain_lens.Domain.{IndexedBlock, Log, Transaction, TokenTransfer, erc1155}
use chain_lens.Store.Db.{
  Db, to_i64, to_i32, same_token_transfer, same_address_transaction, same_block, same_log,
  same_transaction,
}
use chain_lens.Store.Table.{insert, insert_all}
use chain_lens.Store.Postgres.{
  commit_block, insert_block, insert_block_row, insert_transactions, transaction_in, has_block,
  transaction_row, block_row, insert_logs, log_in, log_row, insert_token_transfers, has_log,
  token_transfer_row, address_transaction_row, address_transaction_rows,
  insert_address_transactions, same_hash, update_cursor,
}
use chain_lens.Store.Postgres.Idempotent.{commit_block_again}
use chain_lens.Store.Postgres.Invariant.{IsConsistent, commit_block-IsConsistent}
use chain_lens.Store.Postgres.Collisions.{commit_block_one_row}
use chain_lens.Tests.Data.{fresh_db}

abbrev pub tx : Transaction
tx = record {
  hash = 50 ∷ [];
  block_number = 7;
  tx_index = 0;
  from = 1 ∷ [];
  to = some (2 ∷ []);
  value = 12;
  nonce = 1;
  tx_type = 2;
  gas_limit = 21000;
  gas_price = some 7;
  max_fee_per_gas = none;
  max_priority_fee_per_gas = none;
  input = [];
  status = some 1;
  gas_used = 21000;
  effective_gas_price = some 7;
  contract_address = none;
}

abbrev batch_log : Log
batch_log = record {
  block_number = 7;
  log_index = 0;
  tx_hash = 50 ∷ [];
  address = 9 ∷ [];
  topic0 = none;
  topic1 = none;
  topic2 = none;
  topic3 = none;
  log_data = [];
}

abbrev moved : ℕ → TokenTransfer
moved id = record {
  block_number = 7;
  log_index = 0;
  token_address = 9 ∷ [];
  from = 1 ∷ [];
  to = 2 ∷ [];
  value = 10;
  token_id = id;
  standard = erc1155;
}

-- A block with one transaction, whose one log transfers two tokens.
abbrev pub indexed : IndexedBlock
indexed = record {
  block = record {
    number = 7;
    hash = 8 ∷ [];
    parent_hash = 7 ∷ [];
    timestamp = 84;
    miner = [];
    gas_used = 21000;
    gas_limit = 30000000;
    base_fee_per_gas = none;
    tx_count = 1;
  };
  transactions = tx ∷ [];
  logs = batch_log ∷ [];
  token_transfers = moved 1 ∷ moved 2 ∷ [];
}

abbrev pub stored_db : Db
unfolding commit_block
stored_db = elim (commit_block indexed fresh_db) [
  | ok db ↦ db
  | err _ ↦ fresh_db
  | panic ↦ fresh_db
]

pub indexed_commits : commit_block indexed fresh_db ≡ ok stored_db
unfolding commit_block insert_block insert_block_row insert_transactions insert_all transaction_in
    has_block transaction_row to_i64 block_row insert_logs log_in log_row insert_token_transfers
    has_log token_transfer_row to_i32 same_token_transfer bytes_eq same_address_transaction
    same_block same_log same_transaction address_transaction_row address_transaction_rows
    insert_address_transactions same_hash update_cursor insert
indexed_commits = refl

one_transfer_stored : length stored_db.token_transfers ≡ 1
unfolding commit_block insert_block insert_block_row insert_transactions insert_all transaction_in
    has_block transaction_row to_i64 block_row insert_logs log_in log_row insert_token_transfers
    has_log token_transfer_row to_i32 same_token_transfer bytes_eq same_address_transaction
    same_block same_log same_transaction address_transaction_row address_transaction_rows
    insert_address_transactions same_hash update_cursor insert
one_transfer_stored = refl

pub fresh_db-IsConsistent : IsConsistent fresh_db
fresh_db-IsConsistent = record {
  block_keys = tt;
  block_hashes = tt;
  transaction_keys = tt;
  log_keys = tt;
  token_transfer_keys = tt;
  address_transaction_keys = tt;
  transaction_blocks = tt;
  log_blocks = tt;
  transfer_logs = tt;
}

commit_block_again_example : commit_block indexed stored_db ≡ ok stored_db
commit_block_again_example = commit_block_again indexed fresh_db indexed_commits

commit_block-IsConsistent_example : IsConsistent stored_db
commit_block-IsConsistent_example =
    commit_block-IsConsistent indexed fresh_db fresh_db-IsConsistent indexed_commits

commit_block_one_row_example :
    length stored_db.token_transfers ≤ length fresh_db.token_transfers + 1
commit_block_one_row_example =
    commit_block_one_row indexed fresh_db 7 0 ((refl, refl), ((refl, refl), tt)) indexed_commits
