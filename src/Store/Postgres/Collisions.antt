-- ===== src/Store/Postgres/Collisions.antt =====
-- The conflict key of `insert_token_transfers` in src/store/postgres.rs.
use chain_lens.Base.{
  ℕ, ◌+◌, ◌≤◌, List, [], ◌∷◌, Bool, true, ok, any, map, All, length, ◌≡◌, refl, ◌∙◌, arith,
  >>=-eq-ok,
}
use chain_lens.Domain.{IndexedBlock, TokenTransfer}
use chain_lens.Store.Table.{insert, insert_all}
use chain_lens.Store.Table.Laws.{insert_all_no_news}
use chain_lens.Store.Db.{Db, same_token_transfer}
use chain_lens.Store.Postgres.{token_transfer_row, has_log, commit_block}
use chain_lens.Store.Postgres.Commits.{commit_block-Committed}
use chain_lens.Store.Postgres.Idempotent.{same_token_transfer_refl}

-- The transfer was decoded from the log at this place.
abbrev pub AtLog : ℕ → ℕ → TokenTransfer → Type 0
AtLog n i t = (t.block_number ≡ n) × (t.log_index ≡ i)

any-same_slot :
    (a b : TokenTransfer) (t : List TokenTransfer)
    → a.block_number ≡ b.block_number
    → a.log_index ≡ b.log_index
    → any (same_token_transfer a) t ≡ any (same_token_transfer b) t
unfolding same_token_transfer
any-same_slot a b [] e f = refl
any-same_slot a b (x ∷ t) e f = ground (arith, any-same_slot a b t e f)

rows-AtLog :
    (n i : ℕ) (a : TokenTransfer) (ts t : List TokenTransfer)
    → AtLog n i a
    → All (AtLog n i) ts
    → any (same_token_transfer (token_transfer_row a)) t ≡ true
    → All (λ row. any (same_token_transfer row) t ≡ true) (map token_transfer_row ts)
unfolding token_transfer_row
rows-AtLog n i a [] t h k s = tt
rows-AtLog n i a (x ∷ ts) t h k s = (
  any-same_slot (token_transfer_row x) (token_transfer_row a) t (ground arith) (ground arith) ∙ s,
  rows-AtLog n i a ts t h k.1 s,
)

insert_grows :
    (ref : TokenTransfer → Bool) (row : TokenTransfer) (t : List TokenTransfer)
    {t' : List TokenTransfer}
    → insert same_token_transfer ref row t ≡ ok t'
    → (length t' ≤ length t + 1) × (any (same_token_transfer row) t' ≡ true)
unfolding insert
insert_grows ref row t h = ground (arith, same_token_transfer_refl row)

insert_all_one_row :
    (ref : TokenTransfer → Bool) (n i : ℕ) (ts t : List TokenTransfer) {t' : List TokenTransfer}
    → All (AtLog n i) ts
    → insert_all same_token_transfer ref (map token_transfer_row ts) t ≡ ok t'
    → length t' ≤ length t + 1
unfolding insert_all
insert_all_one_row ref n i [] t h e = ground arith
insert_all_one_row ref n i (a ∷ ts) t h e =
    let (t1, first, rest) =
      >>=-eq-ok (insert same_token_transfer ref (token_transfer_row a) t)
        (insert_all same_token_transfer ref (map token_transfer_row ts)) e in
    let (grown, there) = insert_grows ref (token_transfer_row a) t first in
    let same =
      insert_all_no_news same_token_transfer ref (map token_transfer_row ts) t1
        (rows-AtLog n i a ts t1 h.0 h.1 there) in
    ground arith

-- If all the token transfers of a block come from one log, a successful commit of the block adds at
-- most one row to `token_transfers`, however many transfers there are.
pub commit_block_one_row :
    (b : IndexedBlock) (db : Db) {db' : Db} (n i : ℕ)
    → All (AtLog n i) b.token_transfers
    → commit_block b db ≡ ok db'
    → length db'.token_transfers ≤ length db.token_transfers + 1
commit_block_one_row b db {db'} n i h k =
    insert_all_one_row (has_log db'.logs) n i b.token_transfers db.token_transfers h
      (commit_block-Committed b db k).token_transfers
