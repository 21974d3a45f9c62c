-- ===== src/Pipeline/Rounds/Live.antt =====
-- That a round of src/main.rs gets on: the queue, the workers and the sequencer together.
use chain_lens.Base.{
  ℕ, ◌+◌, ◌≤◌, ◌<◌, ◌≡◌, ◌≢◌, ◌∙◌, some, List, ◌++◌, true, arith, Outcome, panic, In,
}
use chain_lens.Pipeline.Sequencer.{run}
use chain_lens.Pipeline.Worker.{Workers, Choice, steps, spawn_workers, is_done}
use chain_lens.Pipeline.Worker.Progress.{work, steps-append, steps-end}
use chain_lens.Pipeline.Rounds.{RoundConfig, start_block, blocks_to_fetch}
use chain_lens.Pipeline.Rounds.Laws.{Fetchable, fetched_iff}
use chain_lens.Pipeline.Channel.{Channel, Move, opened, moves, Settled}
use chain_lens.Pipeline.Channel.Settles.{opened-end}
use chain_lens.Pipeline.Sequencer.Maps.{has}

-- Whatever the workers of a round have done so far, they can come to an end, and then the block `n`
-- is received by the loop, if `n` is one of the blocks to fetch, every block from the first of them up
-- to it can be fetched, and the loop does not break after `stop` receipts before it: the sequencer and
-- the loop can come to a state in which neither can go on, and in each such state the loop has received
-- it. There is a worker, no fetch panics and the channel has room for a block.
pub fetched_eventually :
    {B E : Type 0} (fetch : ℕ → Outcome E B) (worker_count : ℕ) (config : RoundConfig)
    (cursor latest : ℕ) (cs : List Choice) (w : Workers B)
    → steps fetch cs (spawn_workers worker_count (blocks_to_fetch config cursor latest)) ≡ some w
    → 0 < worker_count
    → ((k : ℕ) → In k (blocks_to_fetch config cursor latest) → fetch k ≢ panic)
    → 0 < config.fetch_queue_depth
    → (n : ℕ) → start_block config cursor ≤ n
    → Fetchable fetch config cursor latest n
    → (stop : ℕ) → n < start_block config cursor + stop
    → (more : List Choice) × (w' : Workers B) × (steps fetch more w ≡ some w')
      × (is_done w' ≡ true)
      × ((ms : List Move) × (c : Channel (ℕ × B)) × (moves config.fetch_queue_depth stop ms
              (opened (run w'.delivered (start_block config cursor)).sent)
            ≡ some c)
          × Settled config.fetch_queue_depth stop c)
      × ((ms : List Move) (c : Channel (ℕ × B))
          → moves config.fetch_queue_depth stop ms
              (opened (run w'.delivered (start_block config cursor)).sent)
            ≡ some c
          → Settled config.fetch_queue_depth stop c
          → has n c.received ≡ true)
fetched_eventually fetch worker_count config cursor latest cs w h some_worker calm room n from
      fetchable stop within =
    let (more, w', reached, ended) = steps-end fetch (work fetch w) w (omega arith) in
    let begun = spawn_workers worker_count (blocks_to_fetch config cursor latest) in
    let whole = steps-append fetch cs more begun h ∙ reached in
    let sent = (run w'.delivered (start_block config cursor)).sent in
    (
      more,
      w',
      reached,
      ended,
      opened-end config.fetch_queue_depth stop sent,
      λ ms c moved settled.
          (fetched_iff fetch worker_count config cursor latest (cs ++ more) w' whole ended
              some_worker calm stop ms c moved settled room n from).0.1
            (fetchable, within),
    )
