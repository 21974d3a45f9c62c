-- ===== src/Reorg/Rollback.antt =====
-- Undoing the blocks above a common ancestor: src/reorg/rollback.rs. Every statement is a function
-- on the database; the foreign keys of migrations/ make `DELETE FROM blocks` cascade. `now` is the
-- time of the transaction.
pub mod Laws
use chain_lens.Base.{
  ℕ, Option, none, some, List, [], ◌∷◌, Bool, true, false, not, ◌&&◌, ◌||◌, if◌then◌else◌, any,
  keep, map, replicate, leb, ltb, ◌==◌, bytes_eq,
}
use chain_lens.Domain.{Bytes, B256, Address, Transaction}
use chain_lens.Store.Db.{
  Db, ReorgRow, AnomalyRow, BlockFact, ActionRow, AddressStats, ContractProfile, to_i64, to_i32,
}
use chain_lens.Reorg.Detect.{ReorgEvent}

unfoldable pub reorg_row : ReorgEvent → ReorgRow
reorg_row event = record {
  common_ancestor_number = to_i64 event.common_ancestor;
  depth = to_i32 event.depth;
  orphaned_from = to_i64 event.orphaned_from;
  orphaned_to = to_i64 event.orphaned_to;
  orphaned_hashes = event.orphaned_hashes;
}

unfoldable pub insert_reorg : ReorgEvent → Db → Db
insert_reorg event db = record db { reorgs = reorg_row event ∷ db.reorgs }

-- `block_number > $1` is unknown at a null, and the row stays.
unfoldable pub at_most : ℕ → Option ℕ → Bool
at_most ancestor none = true
at_most ancestor (some n) = leb n ancestor

unfoldable pub delete_anomalies : ℕ → Db → Db
delete_anomalies ancestor db = record db {
  anomalies = keep (λ a. at_most ancestor a.block_number) db.anomalies;
}

unfoldable pub delete_mev_events : ℕ → Db → Db
delete_mev_events ancestor db = record db {
  mev_events = keep (λ e. leb e.block_number ancestor) db.mev_events;
}

unfoldable pub delete_block_analytics : ℕ → Db → Db
delete_block_analytics ancestor db = record db {
  block_analytics = keep (λ a. leb a.block_number ancestor) db.block_analytics;
}

-- The transaction with this hash goes with its block.
unfoldable pub is_orphan : ℕ → List Transaction → B256 → Bool
is_orphan ancestor transactions hash =
    any (λ t. ltb ancestor t.block_number && bytes_eq t.hash hash) transactions

unfoldable pub names_orphan : ℕ → List Transaction → Option B256 → Bool
names_orphan ancestor transactions none = false
names_orphan ancestor transactions (some hash) = is_orphan ancestor transactions hash

-- `ON DELETE SET NULL`
unfoldable pub clear_deployment : ℕ → ContractProfile → ContractProfile
clear_deployment ancestor p =
    if at_most ancestor p.deployment_block then p else record p { deployment_block = none }

-- A row that refers to a block above the ancestor refers, by its foreign key, to one that the
-- statement deletes; so the cascade is a test of the row's own block number.
unfoldable pub delete_blocks : ℕ → Db → Db
delete_blocks ancestor db = record db {
  blocks = keep (λ b. leb b.number ancestor) db.blocks;
  transactions = keep (λ t. leb t.block_number ancestor) db.transactions;
  logs = keep (λ l. leb l.block_number ancestor) db.logs;
  token_transfers = keep (λ t. leb t.block_number ancestor) db.token_transfers;
  anomalies =
      keep
        (λ a.
          at_most ancestor a.block_number && not (names_orphan ancestor db.transactions a.tx_hash))
        db.anomalies;
  mev_events = keep (λ e. leb e.block_number ancestor) db.mev_events;
  block_analytics = keep (λ a. leb a.block_number ancestor) db.block_analytics;
  transaction_actions =
      keep (λ a. not (is_orphan ancestor db.transactions a.tx_hash)) db.transaction_actions;
  contract_profiles = map (clear_deployment ancestor) db.contract_profiles;
}

unfoldable pub is_receiver : Option Address → Address → Bool
is_receiver none address = false
is_receiver (some to) address = bytes_eq to address

-- The address sent or received a transaction above the ancestor.
unfoldable pub touched : ℕ → List Transaction → Address → Bool
touched ancestor transactions address =
    any (λ t. ltb ancestor t.block_number && (bytes_eq t.from address || is_receiver t.to address))
      transactions

unfoldable pub received : ℕ → List Transaction → Address → Bool
received ancestor transactions address =
    any (λ t. ltb ancestor t.block_number && is_receiver t.to address) transactions

unfoldable pub update_address_stats : (ancestor now : ℕ) → Db → Db
update_address_stats ancestor now db = record db {
  address_stats =
      map
        (λ s.
          if touched ancestor db.transactions s.address then record s { updated_at = now } else s)
        db.address_stats;
}

unfoldable pub update_contract_profiles : (ancestor now : ℕ) → Db → Db
update_contract_profiles ancestor now db = record db {
  contract_profiles =
      map
        (λ p.
          if received ancestor db.transactions p.address then record p { updated_at = now } else p)
        db.contract_profiles;
}

-- `event.orphaned_hashes.first().cloned().unwrap_or_default()`
unfoldable pub first_hash : List Bytes → Bytes
first_hash [] = []
first_hash (h ∷ _) = h

unfoldable pub zero_hash : Bytes
zero_hash = replicate 32 0

unfoldable pub rewind_cursor : ReorgEvent → Db → Db
rewind_cursor event db = record db {
  last_indexed_number = some (to_i64 event.common_ancestor);
  last_indexed_hash =
      some (if event.common_ancestor == 0 then zero_hash else first_hash event.orphaned_hashes);
}

unfoldable pub rollback : ReorgEvent → (now : ℕ) → Db → Db
rollback event now db =
    let ancestor = to_i64 event.common_ancestor in
    rewind_cursor event (
      update_contract_profiles ancestor now (
        update_address_stats ancestor now (
          delete_blocks ancestor (
            delete_block_analytics ancestor
              (delete_mev_events ancestor (delete_anomalies ancestor (insert_reorg event db)))))))
