-- ===== src/Pipeline/Committer/Laws.antt =====
-- What `commit_block` of src/pipeline/committer.rs does to the database.
use chain_lens.Base.{
  ℕ, ◌-◌, ◌≤◌, ◌<◌, none, some, List, Bool, true, false, Outcome, ok, ◌>>=◌, map_err, ltb, ◌≡◌, ◌≢◌,
  arith, >>=-eq-ok, map_err-eq-ok, ◌⊎◌, inl, inr, Bool-cases, Outcome-cases, Option-cases,
  bytes_eq→eq, bytes_eq_iff,
}
use chain_lens.Domain.{Bytes, IndexedBlock}
use chain_lens.Rpc.{BlockResponse, ReceiptResponse, EthClient}
use chain_lens.Decode.Errors.{Host}
use chain_lens.Decode.Blocks.{decode_block}
use chain_lens.Store.Db.{Db}
use chain_lens.Store.Postgres as Postgres
use chain_lens.Store.Postgres.Invariant.{IsConsistent, commit_block-IsConsistent}
use chain_lens.Reorg.Detect.{require_block, detect, find_ancestor, stored_hash}
use chain_lens.Reorg.Rollback.{rollback}
use chain_lens.Reorg.Rollback.Laws.{rollback-IsConsistent}
use chain_lens.Pipeline.Committer.{
  PipelineError, rpc, store, decode, reorg_event, fetch_receipts, index_block, commit_block,
}

detect-none :
    (client : EthClient) (db : Db) (n : ℕ) (parent : Bytes) (d : ℕ)
    → detect client db n parent d ≡ ok none
    → (n ≤ 1) ⊎ (parent ≡ stored_hash db)
unfolding detect
detect-none client db n parent d h = ground (arith, bytes_eq→eq (stored_hash db) parent)

detect-some :
    (client : EthClient) (db : Db) (n : ℕ) (parent : Bytes) (d : ℕ) {a : ℕ}
    → detect client db n parent d ≡ ok (some a)
    → (1 < n) × (parent ≢ stored_hash db) × (find_ancestor client db (n - 1) d ≡ ok a)
unfolding detect
detect-some client db n parent d h =
    (ground arith, ground (arith, bytes_eq_iff (stored_hash db) parent), ground arith)

module _ (client : EthClient) (host : Host) (now : ℕ) (db : Db) (n d : ℕ) where
  -- The block was indexed: it extends the stored chain.
  abbrev pub Extends : Db → Type 0
  Extends db' =
      (block : BlockResponse) × (receipts : List ReceiptResponse) × (indexed : IndexedBlock)
      × (require_block client n true ≡ ok block)
      × (fetch_receipts client block n ≡ ok receipts)
      × (decode_block host block receipts ≡ ok indexed)
      × (Postgres.commit_block indexed db ≡ ok db')
      × ((n ≤ 1) ⊎ (block.parent_hash ≡ stored_hash db))

  -- The block does not extend it: the blocks above the common ancestor were undone.
  abbrev pub Undoes : Db → Type 0
  Undoes db' =
      (block : BlockResponse) × (ancestor : ℕ) × (require_block client n true ≡ ok block)
      × (1 < n)
      × (block.parent_hash ≢ stored_hash db)
      × (find_ancestor client db (n - 1) d ≡ ok ancestor)
      × (db' ≡ rollback (reorg_event ancestor n) now db)

  abbrev pub Describes : Bool × Db → Type 0
  Describes (false, db') = Extends db'
  Describes (true, db') = Undoes db'

  index_block-Extends :
      (block : BlockResponse) (done : Bool) (db' : Db)
      → require_block client n true ≡ ok block
      → ((n ≤ 1) ⊎ (block.parent_hash ≡ stored_hash db))
      → index_block client host db block n ≡ ok (done, db')
      → Describes (done, db')
  unfolding index_block
  index_block-Extends block done db' answer links h =
      let (receipts, e, h1) =
        >>=-eq-ok (map_err rpc (fetch_receipts client block n))
          (λ receipts. map_err decode (decode_block host block receipts) >>= λ indexed.
            map_err store (Postgres.commit_block indexed db) >>= λ db'. ok (false, db'))
          h in
      let (indexed, e', h2) =
        >>=-eq-ok (map_err decode (decode_block host block receipts))
          (λ indexed. map_err store (Postgres.commit_block indexed db) >>= λ db'. ok (false, db'))
          h1 in
      let (db2, e'', h3) =
        >>=-eq-ok (map_err store (Postgres.commit_block indexed db)) (λ db'. ok (false, db')) h2 in
      let same : done ≡ false = ground arith in
      let stored : Postgres.commit_block indexed db ≡ ok db' =
        map_err-eq-ok store (Postgres.commit_block indexed db) (ground arith) in
      rw same (
        block,
        receipts,
        indexed,
        answer,
        map_err-eq-ok rpc (fetch_receipts client block n) e,
        map_err-eq-ok decode (decode_block host block receipts) e',
        stored,
        links,
      )

  undone :
      (block : BlockResponse) (ancestor : ℕ) (done : Bool) (db' : Db)
      → require_block client n true ≡ ok block
      → detect client db n block.parent_hash d ≡ ok (some ancestor)
      → ◌≡◌ {A = Outcome PipelineError (Bool × Db)}
          (ok (true, rollback (reorg_event ancestor n) now db))
          (ok (done, db'))
      → Describes (done, db')
  undone block ancestor done db' answer found h =
      let (above, differs, search) = detect-some client db n block.parent_hash d found in
      let same : done ≡ true = ground arith in
      rw same (block, ancestor, answer, above, differs, search, ground arith)

  -- A call that returns has either indexed the block, which then extends the stored chain or has a
  -- number of at most 1, in one transaction of the store; or it has undone the blocks above the
  -- ancestor that the search found, and then the block's parent was not the stored block.
  pub commit_block-Describes :
      (done : Bool) (db' : Db)
      → commit_block client host now db n d ≡ ok (done, db')
      → Describes (done, db')
  unfolding commit_block
  commit_block-Describes done db' h = elim (Outcome-cases (require_block client n true)) [
    | inr (inl stop) ↦ absurd (ground arith)
    | inr (inr (e, stop)) ↦ absurd (ground arith)
    | inl (block, answer) ↦ elim (Bool-cases (ltb 0 n)) [
      | inr zeroth ↦ index_block-Extends block done db' answer (inl (ground arith)) (ground arith)
      | inl above ↦ elim (Outcome-cases (detect client db n block.parent_hash d)) [
        | inr (inl stop) ↦ absurd (ground arith)
        | inr (inr (e, stop)) ↦ absurd (ground arith)
        | inl (found, known) ↦ elim (Option-cases found) [
          | inl nothing ↦
              let quiet : detect client db n block.parent_hash d ≡ ok none = ground arith in
              index_block-Extends block done db' answer
                (detect-none client db n block.parent_hash d quiet) (ground arith)
          | inr (ancestor, there) ↦
              let loud : detect client db n block.parent_hash d ≡ ok (some ancestor) =
                ground arith in
              undone block ancestor done db' answer loud (ground arith)
        ]
      ]
    ]
  ]

  -- A call that returns keeps a consistent database consistent, whether it indexes the block or
  -- undoes a reorganisation.
  pub commit_block_keeps_IsConsistent :
      (done : Bool) (db' : Db)
      → IsConsistent db
      → commit_block client host now db n d ≡ ok (done, db')
      → IsConsistent db'
  commit_block_keeps_IsConsistent false db' i h =
      let (_, _, indexed, _, _, _, stored, _) = commit_block-Describes false db' h in
      commit_block-IsConsistent indexed db i stored
  commit_block_keeps_IsConsistent true db' i h =
      let (_, ancestor, _, _, _, _, e) = commit_block-Describes true db' h in
      rw e (rollback-IsConsistent (reorg_event ancestor n) now db i)
