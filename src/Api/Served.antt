-- ===== src/Api/Served.antt =====
-- What src/api/handlers.rs answers about what the store of src/storage/postgres.rs holds.
use mathlib.Core.Option
use chain_lens.Base.{
  ◌≡◌, ◌≢◌, refl, sym, ap, ◌∙◌, some, List, [], ◌∷◌, map, Bool, true, false, any, bytes_eq,
  bytes_eq_iff, Bool-cases, In, In-append_right, In-map, inl, inr, ◌⊎◌, ok, ok_or, >>=-eq-ok, arith,
}
use chain_lens.Domain.{Bytes, Block, Transaction, IndexedBlock}
use chain_lens.Store.Db.{Db, same_transaction}
use chain_lens.Store.Table.{insert, insert_all, Unique}
use chain_lens.Store.Table.Laws.{insert_all-appends}
use chain_lens.Store.Postgres.{transaction_row, commit_block}
use chain_lens.Store.Postgres.Commits.{commit_block-Committed}
use chain_lens.Store.Postgres.Invariant.{IsConsistent, commit_block-IsConsistent}
use chain_lens.Sql.{
  bytea, text_type, int2, int4, int8, timestamptz, as_i16, as_i32, as_i64, as_string, as_bytes,
  Server, get_column,
}
use chain_lens.Sql.Laws.{get_column-eq-ok}
use chain_lens.Api.{Hex, not_found}
use chain_lens.Api.Reads.{
  BlockResponse, TransactionResponse, Notations, find_row, block_response, find_block, get_block,
  transaction_response, get_transaction,
}

In-any : {A : Type 0} (p : A → Bool) (x : A) (xs : List A) → In x xs → p x ≡ true → any p xs ≡ true
In-any p x [] m h = absurd m
In-any p x (y ∷ ys) (inl here) h = let e : p y ≡ true = rw (← here) h in rw e refl
In-any p x (y ∷ ys) (inr m) h = ground (arith, In-any p x ys m h)

same_transaction-sym :
    (a b : Transaction) → same_transaction a b ≡ false → same_transaction b a ≡ false
unfolding same_transaction
same_transaction-sym a b h = ground (arith, bytes_eq_iff a.hash b.hash, bytes_eq_iff b.hash a.hash)

-- A row with a new key is there after it was inserted among rows with other keys.
module _ (ref : Transaction → Bool) where
  insert_cases :
      (row : Transaction) (t : List Transaction) {t' : List Transaction}
      → insert same_transaction ref row t ≡ ok t'
      → (any (same_transaction row) t ≡ true) × (t' ≡ t) ⊎ (t' ≡ row ∷ t)
  unfolding insert
  insert_cases row t h = elim (Bool-cases (any (same_transaction row) t)) [
    | inl old ↦ inl (old, ground arith)
    | inr new ↦ inr (ground arith)
  ]

  insert_all-In :
      (row : Transaction) (rows t : List Transaction) {t' : List Transaction}
      → In row rows
      → Unique same_transaction rows
      → any (same_transaction row) t ≡ false
      → insert_all same_transaction ref rows t ≡ ok t'
      → In row t'
  unfolding insert_all
  insert_all-In row [] t m u fresh h = absurd m
  insert_all-In row (r ∷ rows) t {t'} m u fresh h =
      let (t1, e1, h1) =
        >>=-eq-ok (insert same_transaction ref r t) (insert_all same_transaction ref rows) h in
      let (new, e, _) = insert_all-appends same_transaction ref rows t1 h1 in
      elim m [
        | inl here ↦ elim (insert_cases r t e1) [
          | inl (old, _) ↦ absurd (ground (arith, old, rw here at fresh))
          | inr added ↦ rw (e, added, here) (In-append_right r new (r ∷ t) (inl refl))
        ]
        | inr there ↦
            insert_all-In row rows t1 there u.1
              (elim (insert_cases r t e1) [
                | inl (_, same) ↦ rw same fresh
                | inr added ↦
                    rw (added, same_transaction-sym r row (differs r row rows there u.0), fresh)
                      refl
              ])
              h1
      ]
    where
      differs :
          (r row : Transaction) (rows : List Transaction)
          → In row rows
          → any (same_transaction r) rows ≡ false
          → same_transaction r row ≡ false
      differs r row rows there none_same = elim (Bool-cases (same_transaction r row)) [
        | inr other ↦ other
        | inl same ↦
            absurd (ground (arith, In-any (same_transaction r) row rows there same, none_same))
      ]

-- The one row with a hash is the one that is found.
find_row-Unique :
    (hash : Bytes) (t : Transaction) (txs : List Transaction)
    → Unique same_transaction txs
    → In t txs
    → t.hash ≡ hash
    → find_row (λ (u : Transaction). bytes_eq u.hash hash) txs ≡ some t
unfolding find_row same_transaction
find_row-Unique hash t [] u m e = absurd m
find_row-Unique hash t (x ∷ txs) u m e = elim (Bool-cases (bytes_eq x.hash hash)) [
  | inl same ↦ elim m [
    | inl here ↦ rw same (ap some (sym here))
    | inr there ↦
        let twice =
          In-any (same_transaction x) t txs there
            ((bytes_eq_iff x.hash t.hash).1 ((bytes_eq_iff x.hash hash).0 same ∙ sym e)) in
        absurd (ground (arith, twice, u.0))
  ]
  | inr other ↦ elim m [
    | inl here ↦ absurd (
        ground (
          arith,
          other,
          (bytes_eq_iff x.hash hash).1 (ap (λ (v : Transaction). v.hash) (sym here) ∙ e),
        ))
    | inr there ↦ rw other (find_row-Unique hash t txs u.1 there e)
  ]
]

module _ {F : Type 0} (server : Server F) (hex : Hex) (notes : Notations) where
  block_response-panics :
      server.reads as_string timestamptz ≡ false
      → (b : Block) (r : BlockResponse) → block_response server hex notes b ≢ ok r
  unfolding block_response
  block_response-panics narrow b r h =
      let (_, _, h1) = >>=-eq-ok (get_column server as_i64 int8 b.number) _ h in
      let (_, _, h2) = >>=-eq-ok (get_column server as_bytes bytea b.hash) _ h1 in
      let (_, _, h3) = >>=-eq-ok (get_column server as_bytes bytea b.parent_hash) _ h2 in
      let (_, e, _) =
        >>=-eq-ok (get_column server as_string timestamptz (notes.show_time b.timestamp)) _ h3 in
      let read = get_column-eq-ok server as_string timestamptz (notes.show_time b.timestamp) e in cc

  -- If a column of type TIMESTAMPTZ cannot be read as a text, then no request for a block is
  -- answered with a block, whatever is stored and asked for.
  pub get_block_never_answers :
      server.reads as_string timestamptz ≡ false
      → (db : Db) (number_or_hash : Bytes) (r : BlockResponse)
      → get_block server hex notes db number_or_hash ≢ ok r
  unfolding get_block
  get_block_never_answers narrow db number_or_hash r h =
      let (row, _, h1) = >>=-eq-ok (find_block server hex notes db number_or_hash) _ h in
      let (b, _, h2) = >>=-eq-ok (ok_or row not_found) (block_response server hex notes) h1 in
      block_response-panics narrow b r h2

-- The answer about a row.
abbrev pub answer : Hex → Notations → Transaction → TransactionResponse
answer hex notes t = record {
  hash = hex.encode t.hash;
  block_number = t.block_number;
  tx_index = t.tx_index;
  from_addr = hex.encode t.from;
  to_addr = Option.map hex.encode t.to;
  value = notes.show_numeric t.value;
  nonce = t.nonce;
  tx_type = t.tx_type;
  gas_limit = t.gas_limit;
  gas_price = Option.map notes.show_numeric t.gas_price;
  status = t.status;
  gas_used = t.gas_used;
}

module _ {F : Type 0} (server : Server F) (hex : Hex) (notes : Notations)
    (undo : (b : Bytes) → hex.decode (hex.encode b) ≡ some b)
    (reads_i16 : server.reads as_i16 int2 ≡ true) (reads_i32 : server.reads as_i32 int4 ≡ true)
    (reads_i64 : server.reads as_i64 int8 ≡ true)
    (reads_text : server.reads as_string text_type ≡ true)
    (reads_bytes : server.reads as_bytes bytea ≡ true) where
  transaction_response-answer :
      (t : Transaction) → transaction_response server hex notes t ≡ ok (answer hex notes t)
  unfolding transaction_response get_column
  transaction_response-answer t = rw (reads_i16, reads_i32, reads_i64, reads_text, reads_bytes) refl

  -- Given that decoding undoes hexadecimal encoding and that columns are read as the types that
  -- fit them: when a block is committed to a consistent database, its transactions have different
  -- hashes and the hash of one of them is not stored before, then the request for that hash is
  -- answered with the row of that transaction.
  pub get_transaction_after_commit :
      (b : IndexedBlock) (db db' : Db)
      → IsConsistent db
      → commit_block b db ≡ ok db'
      → Unique same_transaction (map transaction_row b.transactions)
      → (t : Transaction) → In t b.transactions
      → any (same_transaction (transaction_row t)) db.transactions ≡ false
      → get_transaction server hex notes db' (hex.encode t.hash)
        ≡ ok (answer hex notes (transaction_row t))
  unfolding get_transaction transaction_row
  get_transaction_after_commit b db db' i h distinct t m fresh =
      let row = transaction_row t in
      let c = commit_block-Committed b db h in
      let there =
        insert_all-In _ row (map transaction_row b.transactions) db.transactions
          (In-map transaction_row t b.transactions m) distinct fresh c.transactions in
      let found =
        find_row-Unique t.hash row db'.transactions
          (commit_block-IsConsistent b db i h).transaction_keys there refl in
      rw (undo t.hash, found) (transaction_response-answer row)
