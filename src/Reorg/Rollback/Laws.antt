-- ===== src/Reorg/Rollback/Laws.antt =====
-- The database after the rollback of src/reorg/rollback.rs.
use mathlib.Core.Path.{ap₂}
use chain_lens.Base.{
  ℕ, some, List, [], ◌∷◌, Bool, true, false, any, keep, map, All, leb, ◌≡◌, refl, arith,
  All-keep_self, keep_idem, inl, inr, Bool-cases,
}
use chain_lens.Domain.{Address, Transaction}
use chain_lens.Store.Db.{Db, to_i64, same_block, same_transaction, same_log, same_token_transfer}
use chain_lens.Store.Table.Laws.{Unique-keep}
use chain_lens.Store.Postgres.{has_block, transaction_in, log_in, has_log, same_hash}
use chain_lens.Store.Postgres.Invariant.{IsConsistent}
use chain_lens.Reorg.Detect.{ReorgEvent}
use chain_lens.Reorg.Rollback.{
  insert_reorg, delete_anomalies, delete_mev_events, delete_block_analytics, delete_blocks,
  update_address_stats, update_contract_profiles, rewind_cursor, rollback, touched, at_most,
  reorg_row,
}

-- The tables whose rows stand in a block hold exactly their old rows at or below the ancestor.
pub record CutAt (a : ℕ) (db db' : Db) : Type 0 where
  pub blocks : db'.blocks ≡ keep (λ b. leb b.number a) db.blocks
  pub transactions : db'.transactions ≡ keep (λ t. leb t.block_number a) db.transactions
  pub logs : db'.logs ≡ keep (λ l. leb l.block_number a) db.logs
  pub token_transfers : db'.token_transfers ≡ keep (λ t. leb t.block_number a) db.token_transfers
  pub mev_events : db'.mev_events ≡ keep (λ e. leb e.block_number a) db.mev_events
  pub block_analytics : db'.block_analytics ≡ keep (λ e. leb e.block_number a) db.block_analytics
  pub anomalies_below : All (λ r. at_most a r.block_number ≡ true) db'.anomalies

keep-All {ℓ κ} :
    {A : Type ℓ} (P : A → Type κ) (q : A → Bool) (xs : List A) → All P xs → All P (keep q xs)
keep-All P q [] h = tt
keep-All P q (x ∷ xs) h = elim (Bool-cases (q x)) [
  | inl stay ↦ rw stay (h.0, keep-All P q xs h.1)
  | inr go ↦ rw go (keep-All P q xs h.1)
]

-- A rollback removes the blocks above the ancestor, and every transaction, log, token transfer, MEV
-- event, block analysis and anomaly of such a block, and keeps every other row of these tables
-- but the anomalies; the cursor stands at the ancestor afterwards, and the event is on record.
pub rollback-CutAt :
    (event : ReorgEvent) (now : ℕ) (db : Db)
    → let db' = rollback event now db in
      CutAt (to_i64 event.common_ancestor) db db'
      × (db'.last_indexed_number ≡ some (to_i64 event.common_ancestor))
      × (db'.reorgs ≡ reorg_row event ∷ db.reorgs)
unfolding rollback insert_reorg delete_anomalies delete_mev_events delete_block_analytics
    delete_blocks update_address_stats update_contract_profiles rewind_cursor
rollback-CutAt event now db =
    let a = to_i64 event.common_ancestor in
    (
      record {
        blocks = refl;
        transactions = refl;
        logs = refl;
        token_transfers = refl;
        mev_events = keep_idem (λ e. leb e.block_number a) db.mev_events;
        block_analytics = keep_idem (λ e. leb e.block_number a) db.block_analytics;
        anomalies_below =
            keep-All (λ r. at_most a r.block_number ≡ true) _ _
              (All-keep_self (λ r. at_most a r.block_number) db.anomalies);
      },
      refl,
      refl,
    )

untouched :
    (a : ℕ) (ts : List Transaction) (address : Address)
    → touched a (keep (λ t. leb t.block_number a) ts) address ≡ false
unfolding touched
untouched a [] address = refl
untouched a (t ∷ ts) address = ground (arith, untouched a ts address)

map_same {ℓ} : {A : Type ℓ} (f : A → A) (xs : List A) → ((x : A) → f x ≡ x) → map f xs ≡ xs
map_same f [] h = refl
map_same f (x ∷ xs) h = ap₂ ◌∷◌ (h x) (map_same f xs h)

-- The refresh of `address_stats` comes after the transactions that it looks for are gone: a rollback
-- leaves that table as it was, time stamps included. Nor does it touch `address_transactions`: the
-- rows of orphaned transactions stay.
pub rollback_leaves :
    (event : ReorgEvent) (now : ℕ) (db : Db)
    → ((rollback event now db).address_stats ≡ db.address_stats)
      × ((rollback event now db).address_transactions ≡ db.address_transactions)
unfolding rollback insert_reorg delete_anomalies delete_mev_events delete_block_analytics
    delete_blocks update_address_stats update_contract_profiles rewind_cursor
rollback_leaves event now db = (
  map_same _ db.address_stats
      (λ s. rw (untouched (to_i64 event.common_ancestor) db.transactions s.address)),
  refl,
)

any-keep-true {ℓ} :
    {A : Type ℓ} (p q : A → Bool) (xs : List A)
    → ((x : A) → p x ≡ true → q x ≡ true)
    → any p xs ≡ true
    → any p (keep q xs) ≡ true
any-keep-true p q [] h e = e
any-keep-true p q (x ∷ xs) h e = ground (arith, h x, any-keep-true p q xs h)

-- Rows that are kept keep what they refer to.
keep-refs {ℓ} :
    {A : Type ℓ} (q r r' : A → Bool) (xs : List A)
    → ((x : A) → q x ≡ true → r x ≡ true → r' x ≡ true)
    → All (λ x. r x ≡ true) xs
    → All (λ x. r' x ≡ true) (keep q xs)
keep-refs q r r' [] h k = tt
keep-refs q r r' (x ∷ xs) h k = elim (Bool-cases (q x)) [
  | inl stay ↦ rw stay (h x stay k.0, keep-refs q r r' xs h k.1)
  | inr go ↦ rw go (keep-refs q r r' xs h k.1)
]

-- A rollback of a consistent database leaves a consistent database.
pub rollback-IsConsistent :
    (event : ReorgEvent) (now : ℕ) (db : Db)
    → IsConsistent db
    → IsConsistent (rollback event now db)
unfolding rollback insert_reorg delete_anomalies delete_mev_events delete_block_analytics
    delete_blocks update_address_stats update_contract_profiles rewind_cursor transaction_in log_in
    has_block has_log
rollback-IsConsistent event now db i =
    let a = to_i64 event.common_ancestor in
    record {
      block_keys = Unique-keep same_block (λ b. leb b.number a) db.blocks i.block_keys;
      block_hashes = Unique-keep same_hash (λ b. leb b.number a) db.blocks i.block_hashes;
      transaction_keys =
          Unique-keep same_transaction (λ t. leb t.block_number a) db.transactions
            i.transaction_keys;
      log_keys = Unique-keep same_log (λ l. leb l.block_number a) db.logs i.log_keys;
      token_transfer_keys =
          Unique-keep same_token_transfer (λ t. leb t.block_number a) db.token_transfers
            i.token_transfer_keys;
      address_transaction_keys = i.address_transaction_keys;
      transaction_blocks =
          keep-refs (λ t. leb t.block_number a) (transaction_in db.blocks) _ db.transactions
            (λ t low there. any-keep-true _ _ db.blocks (λ b e. ground arith) there)
            i.transaction_blocks;
      log_blocks =
          keep-refs (λ l. leb l.block_number a) (log_in db.blocks) _ db.logs
            (λ l low there. any-keep-true _ _ db.blocks (λ b e. ground arith) there) i.log_blocks;
      transfer_logs =
          keep-refs (λ t. leb t.block_number a) (has_log db.logs) _ db.token_transfers
            (λ t low there. any-keep-true _ _ db.logs (λ l e. ground arith) there) i.transfer_logs;
    }
