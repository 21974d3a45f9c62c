-- ===== src/Intelligence/Mev/Block.antt =====
-- What `analyze_block` of src/intelligence/mev.rs does with the columns that it reads, and what the
-- task of src/intelligence/background.rs makes of it.
use chain_lens.Base.{ℕ, ◌≡◌, refl, none, some, List, ◌∷◌, [], ◌++◌, false, ok, err, panic}
use chain_lens.Domain.{Bytes}
use chain_lens.Intelligence.Actions.{Formats}
use chain_lens.Intelligence.Anomalies.{Floats}
use chain_lens.Intelligence.Mev.Analysis.{BlockAnalytics, StoredBlock, MevQueries, analyze_block}
use chain_lens.Intelligence.Background.{
  IntelligenceTask, block_committed, Analyses, analyze_rest, analyze_whole, process_block, process,
}
use chain_lens.Intelligence.Background.Stops.{Stopped, then_run-second, process-Stopped}
use chain_lens.Sql.{row_not_found, int4, as_i64, Server, get_column}

module _ {F : Type 0} (f : Floats F) (q : MevQueries) (server : Server F) where
  -- If a column of type INT cannot be read as an `i64`, then the analysis of a block panics when
  -- the block is stored, and is the error of a missing row when it is not.
  pub analyze_block-panics :
      server.reads as_i64 int4 ≡ false
      → (n : ℕ)
      → ((b : StoredBlock) → q.block n ≡ ok (some b) → analyze_block f q n server ≡ panic)
        × (q.block n ≡ ok none → analyze_block f q n server ≡ err row_not_found)
  unfolding analyze_block get_column
  analyze_block-panics narrow n = (λ b found. rw (found, narrow) refl, λ missing. rw missing refl)

  module _ {Stats Profile Anomaly Event : Type 0} (fmt : Formats)
      (run : Analyses Stats Profile Anomaly (BlockAnalytics F) Event)
      (analyses : (n : ℕ) → run.analyze_block n ≡ analyze_block f q n server) where
    rest-Stopped :
        (n : ℕ) (hashes addresses contracts : List Bytes)
        → run.tx_hashes n ≡ ok hashes
        → run.addresses n ≡ ok addresses
        → run.contracts n ≡ ok contracts
        → analyze_block f q n server ≡ panic
        → Stopped (process_block fmt run n)
    unfolding process_block analyze_rest analyze_whole
    rest-Stopped n hashes addresses contracts h a c panics =
        rw (process_block, h, a, c)
          (then_run-second _ _ (
            then_run-second _ _
              (then_run-second _ _ (then_run-second _ _ (rw (analyses n, panics) tt)))))

    -- If a column of type INT cannot be read as an `i64`, then the messages after that of a stored
    -- block, for which the task's own three queries answer, have no effect on the task: it analyses
    -- no block after the first such one that it is sent.
    pub process_after_stored :
        server.reads as_i64 int4 ≡ false
        → (n : ℕ) (b : StoredBlock) (hashes addresses contracts : List Bytes)
        → q.block n ≡ ok (some b)
        → run.tx_hashes n ≡ ok hashes
        → run.addresses n ≡ ok addresses
        → run.contracts n ≡ ok contracts
        → (before after : List IntelligenceTask)
        → process fmt run (before ++ block_committed n ∷ after)
          ≡ process fmt run (before ++ block_committed n ∷ [])
    process_after_stored narrow n b hashes addresses contracts found h a c before after =
        process-Stopped fmt run n before after (
          rest-Stopped n hashes addresses contracts h a c
            ((analyze_block-panics narrow n).0 b found))
