-- ===== src/Store/Postgres.antt =====
-- `PostgresStore` of src/store/postgres.rs. A statement that breaks a constraint is an error, and a
-- transaction that ends in one leaves the database as it was: `commit_block` returns the new
-- database or the error alone. Failures of the connection are not modelled.
pub mod Commits
pub mod Collisions
pub mod Idempotent
pub mod Invariant
use mathlib.Core.Option
use chain_lens.Base.{
  ℕ, Option, none, some, List, [], ◌∷◌, ◌++◌, Bool, true, false, Outcome, ok, err, ◌>>=◌, map_err,
  if◌then◌else◌, any, map, ◌==◌, ◌&&◌, bytes_eq, flat_map,
}
use chain_lens.Domain.{Bytes, Address, Block, Transaction, Log, TokenTransfer, IndexedBlock}
use chain_lens.Store.Table.{DbError, unique_violation, insert, insert_all}
use chain_lens.Store.Db.{
  Db, AddressTransaction, to_i64, to_i32, same_block, same_transaction, same_log,
  same_token_transfer, same_address_transaction,
}

pub data StoreError : Type 0 where
  database : DbError → StoreError
  migration : StoreError

-- The row that `insert_block` binds.
unfoldable pub block_row : Block → Block
block_row b = record b {
  number = to_i64 b.number;
  timestamp = to_i64 b.timestamp;
  gas_used = to_i64 b.gas_used;
  gas_limit = to_i64 b.gas_limit;
  tx_count = to_i32 b.tx_count;
}

unfoldable pub same_hash : Block → Block → Bool
same_hash a b = bytes_eq a.hash b.hash

-- The hash is unique too, and no `ON CONFLICT` clause covers it.
unfoldable pub insert_block_row : Block → List Block → Outcome DbError (List Block)
insert_block_row row blocks =
    if any (same_block row) blocks
    then ok blocks
    else if any (same_hash row) blocks
    then err unique_violation
    else ok (row ∷ blocks)

unfoldable pub insert_block : IndexedBlock → Db → Outcome DbError Db
insert_block block db = do
  blocks ← insert_block_row (block_row block.block) db.blocks
  ok (record db { blocks = blocks })

unfoldable pub transaction_row : Transaction → Transaction
transaction_row t = record t {
  block_number = to_i64 t.block_number;
  tx_index = to_i32 t.tx_index;
  nonce = to_i64 t.nonce;
  gas_limit = to_i64 t.gas_limit;
  gas_used = to_i64 t.gas_used;
}

unfoldable pub has_block : List Block → ℕ → Bool
has_block blocks n = any (λ b. n == b.number) blocks

-- The foreign keys of `transactions` and of `logs`.
unfoldable pub transaction_in : List Block → Transaction → Bool
transaction_in blocks t = has_block blocks t.block_number

unfoldable pub log_in : List Block → Log → Bool
log_in blocks l = has_block blocks l.block_number

unfoldable pub insert_transactions : IndexedBlock → Db → Outcome DbError Db
insert_transactions block db = do
  transactions ←
      insert_all same_transaction (transaction_in db.blocks)
        (map transaction_row block.transactions) db.transactions
  ok (record db { transactions = transactions })

unfoldable pub log_row : Log → Log
log_row l = record l { block_number = to_i64 l.block_number; log_index = to_i32 l.log_index }

unfoldable pub insert_logs : IndexedBlock → Db → Outcome DbError Db
insert_logs block db = do
  logs ← insert_all same_log (log_in db.blocks) (map log_row block.logs) db.logs
  ok (record db { logs = logs })

unfoldable pub token_transfer_row : TokenTransfer → TokenTransfer
token_transfer_row t = record t {
  block_number = to_i64 t.block_number;
  log_index = to_i32 t.log_index;
}

unfoldable pub has_log : List Log → TokenTransfer → Bool
has_log logs t = any (λ l. t.block_number == l.block_number && t.log_index == l.log_index) logs

unfoldable pub insert_token_transfers : IndexedBlock → Db → Outcome DbError Db
insert_token_transfers block db = do
  token_transfers ←
      insert_all same_token_transfer (has_log db.logs)
        (map token_transfer_row block.token_transfers) db.token_transfers
  ok (record db { token_transfers = token_transfers })

unfoldable pub address_transaction_row : Transaction → Address → ℕ → AddressTransaction
address_transaction_row t address direction = record {
  address = address;
  block_number = to_i64 t.block_number;
  tx_index = to_i32 t.tx_index;
  tx_hash = t.hash;
  direction = direction;
}

-- One row for the sender of a transaction, and one for its receiver if it has one.
unfoldable pub address_transaction_rows : Transaction → List AddressTransaction
address_transaction_rows t =
    address_transaction_row t t.from 0
    ∷ elim t.to [ none ↦ [] | some to ↦ address_transaction_row t to 1 ∷ [] ]

abbrev pub unreferenced : AddressTransaction → Bool
unreferenced _ = true

unfoldable pub insert_address_transactions : IndexedBlock → Db → Outcome DbError Db
insert_address_transactions block db = do
  address_transactions ←
      insert_all same_address_transaction unreferenced
        (flat_map address_transaction_rows block.transactions) db.address_transactions
  ok (record db { address_transactions = address_transactions })

unfoldable pub update_cursor : IndexedBlock → Db → Outcome DbError Db
update_cursor block db = ok (record db {
  last_indexed_number = some (to_i64 block.block.number);
  last_indexed_hash = some block.block.hash;
})

unfoldable pub commit_block : IndexedBlock → Db → Outcome StoreError Db
commit_block block db = map_err database do
  db1 ← insert_block block db
  db2 ← insert_transactions block db1
  db3 ← insert_logs block db2
  db4 ← insert_token_transfers block db3
  db5 ← insert_address_transactions block db4
  update_cursor block db5

unfoldable pub last_indexed_block : Db → Option (ℕ × Bytes)
last_indexed_block db = elim db.last_indexed_number [
  | none ↦ none
  | some n ↦ Option.map (λ h. (n, h)) db.last_indexed_hash
]
