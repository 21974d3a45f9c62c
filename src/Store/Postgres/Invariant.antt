-- ===== src/Store/Postgres/Invariant.antt =====
-- The constraints of the schema in migrations/, and `commit_block` of src/store/postgres.rs.
use chain_lens.Base.{
  ℕ, List, [], ◌∷◌, ◌++◌, true, false, ok, any, map, flat_map, All, All-append, ◌≡◌, sym, arith,
  Bool-cases, inl, inr,
}
use mathlib.Core.Path.{subst}
use chain_lens.Domain.{IndexedBlock, Block, Log, TokenTransfer}
use chain_lens.Store.Table.{Unique}
use chain_lens.Store.Table.Laws.{insert_all-Unique, insert_all-appends, any-append_right}
use chain_lens.Store.Db.{
  Db, same_block, same_transaction, same_log, same_token_transfer, same_address_transaction,
}
use chain_lens.Store.Postgres.{
  block_row, insert_block_row, same_hash, transaction_row, has_block, transaction_in, log_row,
  log_in, token_transfer_row, has_log, address_transaction_rows, unreferenced, commit_block,
}
use chain_lens.Store.Postgres.Commits.{commit_block-Committed}

-- The primary keys, the unique hash of a block and the foreign keys.
pub record IsConsistent (db : Db) : Type 0 where
  pub block_keys : Unique same_block db.blocks
  pub block_hashes : Unique same_hash db.blocks
  pub transaction_keys : Unique same_transaction db.transactions
  pub log_keys : Unique same_log db.logs
  pub token_transfer_keys : Unique same_token_transfer db.token_transfers
  pub address_transaction_keys : Unique same_address_transaction db.address_transactions
  pub transaction_blocks : All (λ t. transaction_in db.blocks t ≡ true) db.transactions
  pub log_blocks : All (λ l. log_in db.blocks l ≡ true) db.logs
  pub transfer_logs : All (λ t. has_log db.logs t ≡ true) db.token_transfers

pub All-implies {ℓ κ μ} :
    {A : Type ℓ} (P : A → Type κ) (Q : A → Type μ) (xs : List A)
    → ((x : A) → P x → Q x)
    → All P xs
    → All Q xs
All-implies P Q [] f h = tt
All-implies P Q (x ∷ xs) f h = (f x h.0, All-implies P Q xs f h.1)

insert_block_row-Unique :
    (row : Block) (blocks : List Block) {blocks' : List Block}
    → Unique same_block blocks
    → Unique same_hash blocks
    → insert_block_row row blocks ≡ ok blocks'
    → Unique same_block blocks' × Unique same_hash blocks'
unfolding insert_block_row
insert_block_row-Unique row blocks {blocks'} u v h =
    elim (Bool-cases (any (same_block row) blocks)) [
      | inl old ↦
          let e : blocks ≡ blocks' = ground arith in
          (subst (Unique same_block) e u, subst (Unique same_hash) e v)
      | inr fresh ↦
          let e : row ∷ blocks ≡ blocks' = ground arith in
          let f : any (same_hash row) blocks ≡ false = ground arith in
          (subst (Unique same_block) e (fresh, u), subst (Unique same_hash) e (f, v))
    ]

insert_block_row-keeps :
    (row : Block) (blocks : List Block) {blocks' : List Block} (n : ℕ)
    → insert_block_row row blocks ≡ ok blocks'
    → has_block blocks n ≡ true
    → has_block blocks' n ≡ true
unfolding insert_block_row has_block
insert_block_row-keeps row blocks n h k = ground arith

has_log-append :
    (new logs : List Log) (t : TokenTransfer)
    → has_log logs t ≡ true
    → has_log (new ++ logs) t ≡ true
unfolding has_log
has_log-append new logs t h = any-append_right _ new logs h

-- A commit to a consistent database that succeeds leaves a consistent database: no key and no block
-- hash twice, every transaction and log in a stored block, every token transfer at a stored log.
pub commit_block-IsConsistent :
    (b : IndexedBlock) (db : Db) {db' : Db}
    → IsConsistent db
    → commit_block b db ≡ ok db'
    → IsConsistent db'
unfolding transaction_in log_in
commit_block-IsConsistent b db {db'} i h =
    let c = commit_block-Committed b db h in
    let (keys, hashes) =
      insert_block_row-Unique (block_row b.block) db.blocks i.block_keys i.block_hashes c.blocks in
    let kept = λ (n : ℕ).
      insert_block_row-keeps (block_row b.block) db.blocks {blocks' = db'.blocks} n c.blocks in
    let (txs, te, tr) =
      insert_all-appends same_transaction (transaction_in db'.blocks)
        (map transaction_row b.transactions) db.transactions c.transactions in
    let (ls, le, lr) =
      insert_all-appends same_log (log_in db'.blocks) (map log_row b.logs) db.logs c.logs in
    let (ts, se, sr) =
      insert_all-appends same_token_transfer (has_log db'.logs)
        (map token_transfer_row b.token_transfers) db.token_transfers c.token_transfers in
    record {
      block_keys = keys;
      block_hashes = hashes;
      transaction_keys =
          insert_all-Unique same_transaction (transaction_in db'.blocks)
            (map transaction_row b.transactions) db.transactions i.transaction_keys c.transactions;
      log_keys =
          insert_all-Unique same_log (log_in db'.blocks) (map log_row b.logs) db.logs i.log_keys
            c.logs;
      token_transfer_keys =
          insert_all-Unique same_token_transfer (has_log db'.logs)
            (map token_transfer_row b.token_transfers) db.token_transfers i.token_transfer_keys
            c.token_transfers;
      address_transaction_keys =
          insert_all-Unique same_address_transaction unreferenced
            (flat_map address_transaction_rows b.transactions) db.address_transactions
            i.address_transaction_keys c.address_transactions;
      transaction_blocks = subst (All (λ t. transaction_in db'.blocks t ≡ true)) (sym te) (
          All-append (λ t. transaction_in db'.blocks t ≡ true) txs db.transactions tr
            (All-implies _ _ db.transactions (λ t k. kept t.block_number k) i.transaction_blocks));
      log_blocks = subst (All (λ l. log_in db'.blocks l ≡ true)) (sym le) (
          All-append (λ l. log_in db'.blocks l ≡ true) ls db.logs lr
            (All-implies _ _ db.logs (λ l k. kept l.block_number k) i.log_blocks));
      transfer_logs = subst (All (λ t. has_log db'.logs t ≡ true)) (sym se) (
          All-append (λ t. has_log db'.logs t ≡ true) ts db.token_transfers sr
            (All-implies _ _ db.token_transfers (λ t k. rw le (has_log-append ls db.logs t k))
              i.transfer_logs));
    }
