-- ===== src/Pipeline/Worker.antt =====
-- The workers: src/pipeline/worker.rs. They share one queue of block numbers; each takes the next
-- number, fetches and decodes the block, and sends it on. Which worker is how fast is not
-- determined, so a run is a sequence of choices, and a theorem holds for every sequence.
pub mod Schedules
pub mod Progress
use chain_lens.Base.{
  ℕ, zero, suc, ◌+◌, Option, none, some, List, [], ◌∷◌, ◌++◌, Bool, true, false, Outcome, ok, err,
  panic, ◌>>=◌, ok_or, map_err,
}
use chain_lens.Domain.{IndexedBlock}
use chain_lens.Rpc.{EthClient, deserialize, block_not_found}
use chain_lens.Decode.Errors.{Host}
use chain_lens.Decode.Blocks.{decode_block}
use chain_lens.Pipeline.Committer.{PipelineError, rpc, decode, fetch_receipts}

-- The number of a `FetchedBlock` is the first component of a message of the channel.
unfoldable pub fetch_and_decode : EthClient → Host → ℕ → Outcome PipelineError IndexedBlock
fetch_and_decode client host block_number = do
  answer ← map_err rpc (client.get_block_by_number block_number true)
  block ← ok_or answer (rpc (deserialize (block_not_found block_number)))
  receipts ← map_err rpc (fetch_receipts client block block_number)
  map_err decode (decode_block host block receipts)

-- `idle` workers wait for a number, `in_flight` are the numbers that the others work on, and
-- `delivered` is what went into the channel, in its order. A worker that panics is lost.
pub record Workers (B : Type 0) : Type 0 where
  pub idle : ℕ
  pub pending : List ℕ
  pub in_flight : List ℕ
  pub delivered : List (ℕ × B)

-- What happens next: an idle worker takes a number, or the fetch at a position ends.
pub data Choice : Type 0 where
  take_next : Choice
  finish : (position : ℕ) → Choice

unfoldable pub remove_at : ℕ → List ℕ → Option (ℕ × List ℕ)
remove_at i [] = none
remove_at zero (n ∷ ns) = some (n, ns)
remove_at (suc i) (n ∷ ns) = elim (remove_at i ns) [
  | none ↦ none
  | some (m, rest) ↦ some (m, n ∷ rest)
]

module _ {E B : Type 0} (fetch : ℕ → Outcome E B) where
  -- The worker that fetched `n` goes on with the workers `w`.
  unfoldable pub finished : ℕ → Workers B → Outcome E B → Workers B
  finished n w (ok b) = record w { idle = w.idle + 1; delivered = w.delivered ++ (n, b) ∷ [] }
  finished n w (err e) = record w { idle = w.idle + 1 }
  finished n w panic = w

  unfoldable pub taken : ℕ → List ℕ → Workers B → Option (Workers B)
  taken zero pending w = none
  taken (suc idle) [] w = none
  taken (suc idle) (n ∷ pending) w =
      some (record w { idle = idle; pending = pending; in_flight = n ∷ w.in_flight })

  unfoldable pub step : Choice → Workers B → Option (Workers B)
  unfolding remove_at finished taken
  step take_next w = taken w.idle w.pending w
  step (finish position) w = elim (remove_at position w.in_flight) [
    | none ↦ none
    | some (n, in_flight) ↦ some (finished n (record w { in_flight = in_flight }) (fetch n))
  ]

  unfoldable pub steps : List Choice → Workers B → Option (Workers B)
  unfolding step
  steps [] w = some w
  steps (c ∷ cs) w = elim (step c w) [ none ↦ none | some w' ↦ steps cs w' ]

unfoldable pub spawn_workers : {B : Type 0} → (worker_count : ℕ) → (numbers : List ℕ) → Workers B
spawn_workers worker_count numbers = record {
  idle = worker_count;
  pending = numbers;
  in_flight = [];
  delivered = [];
}

-- The workers have come to an end: none of them works, and no number is left for those that wait.
-- `spawn_workers` joins its workers, so it returns as well when a panic has ended all of them.
abbrev pub is_done : {B : Type 0} → Workers B → Bool
is_done w = elim w.in_flight [
  | _ ∷ _ ↦ false
  | [] ↦ elim w.pending [ [] ↦ true | _ ∷ _ ↦ elim w.idle [ zero ↦ true | suc _ ↦ false ] ]
]
