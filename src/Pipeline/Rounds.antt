-- ===== src/Pipeline/Rounds.antt =====
-- One round of the main loop: src/main.rs. A round fetches the next blocks, puts them in order and
-- commits one after the other. The client and the clock may answer each commit in another way.
-- Cancellation, metrics and the notices to the intelligence processor are left out.
pub mod Laws
pub mod Live
pub mod Ends
pub mod Skipped
use mathlib.Core.Option
use chain_lens.Base.{
  ℕ, zero, suc, ◌+◌, ◌-◌, ◌*◌, ◌%◌, ◌^◌, min, max, Option, List, [], ◌∷◌, Bool, true, false,
  if◌then◌else◌, ltb, length, Outcome, ok, err, panic, ◌>>=◌,
}
use chain_lens.Domain.{IndexedBlock}
use chain_lens.Rpc.{EthClient}
use chain_lens.Decode.Errors.{Host}
use chain_lens.Store.Db.{Db}
use chain_lens.Store.Postgres.{last_indexed_block}
use chain_lens.Pipeline.Committer.{PipelineError, commit_block}
use chain_lens.Pipeline.Sequencer.{State, run}

-- The settings of src/config.rs that a round reads.
pub record RoundConfig : Type 0 where
  pub backfill_from : ℕ
  pub fetch_queue_depth : ℕ
  pub max_reorg_depth : ℕ

unfoldable pub range : (from count : ℕ) → List ℕ
range from zero = []
range from (suc count) = from ∷ range (from + 1) count

unfoldable pub start_block : RoundConfig → (cursor : ℕ) → ℕ
start_block config cursor = max cursor config.backfill_from

unfoldable pub fetch_count : RoundConfig → (cursor latest : ℕ) → ℕ
unfolding start_block
fetch_count config cursor latest_block =
    min (suc latest_block - start_block config cursor) (config.fetch_queue_depth * 2 % 2 ^ 64)

unfoldable pub blocks_to_fetch : RoundConfig → (cursor latest : ℕ) → List ℕ
unfolding start_block fetch_count range
blocks_to_fetch config cursor latest_block =
    range (start_block config cursor) (fetch_count config cursor latest_block)

-- The variables of the main loop.
pub record Progress : Type 0 where
  pub cursor : ℕ
  pub blocks_indexed : ℕ
  pub db : Db

-- The cursor after a reorganisation.
unfoldable pub rewound : RoundConfig → Db → ℕ
rewound config db =
    Option.get_or (Option.map (λ p. p.0) (last_indexed_block db)) (config.backfill_from - 1)

-- How a round ends: with both tasks joined, or never, when the loop has stopped receiving and the
-- sequencer waits to send. The number of its blocks is at most twice the capacity of each channel, so
-- nothing else waits for ever.
pub data RoundEnd : Type 0 where
  ended : Progress → RoundEnd
  hangs : Progress → RoundEnd

abbrev pub progress_of : RoundEnd → Progress
progress_of (ended p) = p
progress_of (hangs p) = p

module _ (clients : ℕ → EthClient) (host : Host) (now : ℕ → ℕ) (config : RoundConfig) where
  -- The loop over the fetched blocks: a failed commit is logged, and the next block comes. The blocks
  -- that it does not receive any more come with the result.
  unfoldable pub commit_fetched :
      List (ℕ × IndexedBlock)
      → Progress
      → Outcome PipelineError (Progress × List (ℕ × IndexedBlock))
  unfolding rewound
  commit_fetched [] p = ok (p, [])
  commit_fetched ((n, _) ∷ fetched) p =
      let committed = λ (db : Db).
        commit_fetched fetched
          (record { cursor = n; blocks_indexed = p.blocks_indexed + 1; db = db }) in
      let skipped = commit_fetched fetched p in
      elim (commit_block (clients n) host (now n) p.db n config.max_reorg_depth) [
        | ok (true, db) ↦ ok (record p { cursor = rewound config db; db = db }, fetched)
        | ok (false, db) ↦ committed db
        | err _ ↦ skipped
        | panic ↦ panic
      ]

  -- The sequencer still sends as many blocks as the channel holds.
  unfoldable pub round_end : Progress × List (ℕ × IndexedBlock) → RoundEnd
  round_end (p, unreceived) =
      if ltb config.fetch_queue_depth (length unreceived) then hangs p else ended p

  -- The round, when the workers delivered these blocks.
  unfoldable pub round : List (ℕ × IndexedBlock) → Progress → Outcome PipelineError RoundEnd
  unfolding commit_fetched start_block round_end
  round delivered p = do
    result ← commit_fetched (run delivered (start_block config p.cursor)).sent p
    ok (round_end result)
