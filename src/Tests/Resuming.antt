-- ===== src/Tests/Resuming.antt =====
-- A round in which the workers have only begun.
use chain_lens.Base.{ℕ, ◌+◌, ◌≤◌, ◌<◌, ◌≡◌, refl, some, List, [], ◌∷◌, true, arith, ok}
use chain_lens.Domain.{Bytes}
use chain_lens.Pipeline.Sequencer.{run}
use chain_lens.Pipeline.Channel.{Channel, Move, opened, moves, Settled}
use chain_lens.Pipeline.Sequencer.Maps.{has}
use chain_lens.Pipeline.Worker.{
  Workers, Choice, take_next, finish, step, steps, taken, finished, remove_at, spawn_workers,
  is_done,
}
use chain_lens.Pipeline.Rounds.{start_block, fetch_count, blocks_to_fetch, range}
use chain_lens.Pipeline.Rounds.Live.{fetched_eventually}
use chain_lens.Tests.Running.{fetch, fetch_calm, config, starts_below}

-- Both workers have taken a number, and one of them has sent its block.
abbrev begun : Workers Bytes
begun = record { idle = 1; pending = 7 ∷ 8 ∷ []; in_flight = 5 ∷ []; delivered = (6, 6 ∷ []) ∷ [] }

begun_run :
    steps fetch
      (take_next ∷ take_next ∷ finish 0 ∷ [])
      (spawn_workers 2 (blocks_to_fetch config 3 100))
    ≡ some begun
unfolding steps step taken finished remove_at spawn_workers blocks_to_fetch range start_block
    fetch_count
begun_run = refl

fetched_below_7 : (m : ℕ) → start_block config 3 ≤ m → m ≤ 6 → (b : Bytes) × (fetch m ≡ ok b)
fetched_below_7 m from to = (m ∷ [], ground arith)

stops_after : 6 < start_block config 3 + 4
unfolding start_block
stops_after = omega arith

within : 6 < start_block config 3 + fetch_count config 3 100
unfolding start_block fetch_count
within = omega arith

fetched_eventually_example :
    (more : List Choice) × (w : Workers Bytes) × (steps fetch more begun ≡ some w)
    × (is_done w ≡ true)
    × ((ms : List Move) × (c : Channel (ℕ × Bytes)) × (moves 2 4 ms
            (opened (run w.delivered (start_block config 3)).sent)
          ≡ some c)
        × Settled 2 4 c)
    × ((ms : List Move) (c : Channel (ℕ × Bytes))
        → moves 2 4 ms (opened (run w.delivered (start_block config 3)).sent) ≡ some c
        → Settled 2 4 c
        → has 6 c.received ≡ true)
fetched_eventually_example =
    fetched_eventually fetch 2 config 3 100 (take_next ∷ take_next ∷ finish 0 ∷ []) begun begun_run
      (omega arith) (λ n _. fetch_calm n) (omega arith) 6 starts_below (within, fetched_below_7) 4
      stops_after
