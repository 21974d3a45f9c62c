-- ===== src/Tests/Running.antt =====
-- The pipeline, its parts and the retries at concrete inputs.
use chain_lens.Base.{
  ◌-◌, ◌++◌, min, bytes_eq, if◌then◌else◌, ◌==◌, ℕ, zero, suc, ◌+◌, ◌*◌, ◌^◌, ◌%◌, ◌<◌, ◌≤◌, ◌≡◌,
  ◌≢◌, ◌⊎◌, ◌↔◌, refl, sym, ap, some, List, [], ◌∷◌, Outcome, ok, err, panic, length, true, arith,
  All,
}
use chain_lens.Domain.{Bytes, IndexedBlock}
use chain_lens.Rpc.{RpcError, timeout}
use chain_lens.Rpc.Retry.{rpc_default, call}
use chain_lens.Rpc.Retry.Laws.{Stops, call-Stops}
use chain_lens.Store.Db.{Db}
use chain_lens.Store.Postgres.{last_indexed_block}
use chain_lens.Store.Postgres.Invariant.{IsConsistent}
use chain_lens.Reorg.Detect.{
  require_block, depth_exceeded, stored_hash, find_ancestor, find_ancestor_from,
}
use chain_lens.Reorg.Detect.Ancestor.{Meets, Differs, find_ancestor-Meets}
use chain_lens.Reorg.Rollback.{rollback, zero_hash}
use chain_lens.Pipeline.Committer.{reorg, reorg_event, commit_block}
use chain_lens.Pipeline.Committer.Laws.{
  Describes, commit_block-Describes, commit_block_keeps_IsConsistent,
}
use chain_lens.Pipeline.Committer.Stuck.{Serves, Unknown, commit_block_after_rollback}
use chain_lens.Pipeline.Sequencer.{run, receive_all, receive, insert, remove, drain_buffer, drain}
use chain_lens.Base.{In}
use chain_lens.Pipeline.Sequencer.Maps.{has}
use chain_lens.Pipeline.Sequencer.Order.{Consecutive, run-Consecutive}
use chain_lens.Pipeline.Worker.{
  Workers, Choice, take_next, finish, step, steps, taken, finished, remove_at, spawn_workers,
}
use chain_lens.Pipeline.Worker.Schedules.{workers_iff}
use chain_lens.Pipeline.Worker.Progress.{workers_terminate}
use chain_lens.Pipeline.Rounds.{
  RoundConfig, start_block, fetch_count, blocks_to_fetch, Progress, RoundEnd, round_end, rewound,
  commit_fetched, range, round,
}
use chain_lens.Pipeline.Rounds.Laws.{Fetchable, fetched_iff, round-IsConsistent}
use chain_lens.Pipeline.Rounds.Ends.{round-Settled}
use chain_lens.Pipeline.Channel.{Channel, Move, sends, receives, opened, move, moves, Settled}
use chain_lens.Pipeline.Channel.Settles.{moves-Settled}
use chain_lens.Pipeline.Rounds.Skipped.{commit_block_skips}
use chain_lens.Tests.Data.{host, chain, client, db_at}
use chain_lens.Tests.Storing.{indexed}

serves : Serves client chain
serves = record { answers = λ n full. refl }

-- A hash of another length than one is none of the chain's.
unknown : (hash : Bytes) → length hash ≢ 1 → Unknown chain 50 hash
unknown hash h = record { own = λ n e. h (ap length (sym e)); parent = λ e. h (ap length (sym e)) }

length-zero_hash : length zero_hash ≢ 1
unfolding zero_hash
length-zero_hash h = absurd (omega (arith, h))

-- The cursor stands at block 3, and block 5 comes.
abbrev at_three : Db
at_three = db_at 3 (4 ∷ [])

abbrev undone_db : Db
undone_db = rollback (reorg_event 3 5) 100 at_three

stored_hash-at_three : stored_hash at_three ≡ 4 ∷ []
unfolding stored_hash last_indexed_block
stored_hash-at_three = refl

differs : (n : ℕ) → n ≢ 4 → (n ∷ []) ≢ stored_hash at_three
unfolding stored_hash last_indexed_block
differs n h e = h (ground (arith, e))

commit_block_skips_example : commit_block client host 100 at_three 5 10 ≡ ok (true, undone_db)
commit_block_skips_example =
    commit_block_skips client chain serves at_three 2 10 host 100 (omega arith) stored_hash-at_three
      (differs 5 (λ e. absurd (omega (arith, e)))) (differs 5 (λ e. absurd (omega (arith, e))))

commit_block-Describes_example : Describes client host 100 at_three 5 10 (true, undone_db)
commit_block-Describes_example =
    commit_block-Describes client host 100 at_three 5 10 true undone_db commit_block_skips_example

at_three-IsConsistent : IsConsistent at_three
at_three-IsConsistent = record {
  block_keys = tt;
  block_hashes = tt;
  transaction_keys = tt;
  log_keys = tt;
  token_transfer_keys = tt;
  address_transaction_keys = tt;
  transaction_blocks = tt;
  log_blocks = tt;
  transfer_logs = tt;
}

commit_block_keeps_IsConsistent_example : IsConsistent undone_db
commit_block_keeps_IsConsistent_example =
    commit_block_keeps_IsConsistent client host 100 at_three 5 10 true undone_db
      at_three-IsConsistent commit_block_skips_example

commit_block_after_rollback_example :
    commit_block client host 200 undone_db 50 10
    ≡ err (reorg (depth_exceeded ((10 + 1) % 2 ^ 64) 10))
commit_block_after_rollback_example =
    commit_block_after_rollback client chain serves host client 100 200 at_three 5 50 10
      commit_block_skips_example (unknown zero_hash length-zero_hash) (omega arith)

find_ancestor_run : find_ancestor client at_three 4 10 ≡ ok 3
unfolding find_ancestor find_ancestor_from require_block stored_hash last_indexed_block bytes_eq
find_ancestor_run = refl

find_ancestor-Meets_example :
    (3 ≤ 4)
    × (4 ≤ 3 + 10)
    × Meets client at_three 4 10 3
    × ((m : ℕ) → 3 < m → m ≤ 4 → Differs client at_three 4 10 m)
find_ancestor-Meets_example = find_ancestor-Meets client at_three 4 10 find_ancestor_run

-- Three blocks that come in the order 6, 8, 5: block 7 is missing.
abbrev messages : List (ℕ × Bytes)
messages = (6, 60 ∷ []) ∷ (8, 80 ∷ []) ∷ (5, 50 ∷ []) ∷ []

run-Consecutive_example :
    Consecutive 5 (run messages 5).sent (run messages 5).expected
    × All (λ p. In p messages) (run messages 5).sent
run-Consecutive_example = run-Consecutive 5 messages

-- The node does not have block 7.
abbrev pub fetch : ℕ → Outcome RpcError Bytes
fetch n = if n == 7 then err timeout else ok (n ∷ [])

pub fetch_calm : (n : ℕ) → fetch n ≢ panic
fetch_calm n e = ground (arith, e)

abbrev pub config : RoundConfig
config = record { backfill_from = 5; fetch_queue_depth = 2; max_reorg_depth = 10 }

-- Two workers on the blocks 5 to 8; the second of them is the faster.
abbrev choices : List Choice
choices =
    take_next ∷ take_next ∷ finish 0 ∷ take_next ∷ finish 0 ∷ finish 0 ∷ take_next ∷ finish 0 ∷ []

abbrev ended : Workers Bytes
ended = record {
  idle = 2;
  pending = [];
  in_flight = [];
  delivered = (6, 6 ∷ []) ∷ (5, 5 ∷ []) ∷ (8, 8 ∷ []) ∷ [];
}

choices_run : steps fetch choices (spawn_workers 2 (blocks_to_fetch config 3 100)) ≡ some ended
unfolding steps step taken finished remove_at spawn_workers blocks_to_fetch range start_block
    fetch_count
choices_run = refl

workers_iff_example :
    In (6, 6 ∷ []) ended.delivered ↔ (In 6 (blocks_to_fetch config 3 100) × (fetch 6 ≡ ok (6 ∷ [])))
workers_iff_example =
    workers_iff fetch 2 (blocks_to_fetch config 3 100) choices ended choices_run refl (omega arith)
      (λ n _. fetch_calm n) (6, 6 ∷ [])

workers_terminate_example :
    (length choices ≤ 2 * length (blocks_to_fetch config 3 100))
    × (ended.idle + length ended.in_flight ≡ 2)
    × (((ended.pending ≡ []) × (ended.in_flight ≡ []))
        ⊎ ((c : Choice) × (w : Workers Bytes) × (step fetch c ended ≡ some w)))
workers_terminate_example =
    workers_terminate fetch 2 (blocks_to_fetch config 3 100) choices ended choices_run (omega arith)
      (λ n _. fetch_calm n)

pub starts_below : start_block config 3 ≤ 6
unfolding start_block
starts_below = omega arith

-- The loop receives both blocks that could be fetched before the missing one.
abbrev drained : Channel (ℕ × Bytes)
drained = record { unsent = []; queue = []; received = (5, 5 ∷ []) ∷ (6, 6 ∷ []) ∷ [] }

run_drains :
    moves 2 4
      (sends ∷ receives ∷ sends ∷ receives ∷ [])
      (opened (run ended.delivered (start_block config 3)).sent)
    ≡ some drained
unfolding moves move opened run receive_all receive insert remove drain_buffer drain start_block
run_drains = refl

drained-Settled : Settled 2 4 drained
unfolding move
drained-Settled = (refl, refl)

fetched_iff_example :
    ((has 6 drained.received ≡ true)
      ↔ (Fetchable fetch config 3 100 6 × (6 < start_block config 3 + 4)))
    × ((has 6 (drained.received ++ drained.queue) ≡ true)
        ↔ (Fetchable fetch config 3 100 6 × (6 < start_block config 3 + (4 + 2))))
fetched_iff_example =
    fetched_iff fetch 2 config 3 100 choices ended choices_run refl (omega arith)
      (λ n _. fetch_calm n) 4 (sends ∷ receives ∷ sends ∷ receives ∷ []) drained run_drains
      drained-Settled (omega arith) 6 starts_below

abbrev progress : Progress
progress = record { cursor = 3; blocks_indexed = 0; db = at_three }

abbrev rolled_back : Progress
rolled_back = record { cursor = rewound config undone_db; blocks_indexed = 0; db = undone_db }

-- Block 5 was delivered; its commit finds that block 4 is missing.
commit_run :
    commit_fetched (λ n. client) host (λ n. 100) config ((5, indexed) ∷ []) progress
    ≡ ok (rolled_back, [])
unfolding commit_fetched
commit_run = rw (commit_fetched, commit_block_skips_example) refl

round_run :
    round (λ n. client) host (λ n. 100) config ((5, indexed) ∷ []) progress
    ≡ ok (RoundEnd.ended rolled_back)
unfolding round round_end run receive_all receive insert remove drain_buffer drain start_block
round_run = rw (round, commit_run) refl

round-IsConsistent_example : IsConsistent rolled_back.db
round-IsConsistent_example =
    round-IsConsistent (λ n. client) host (λ n. 100) config ((5, indexed) ∷ []) progress
      at_three-IsConsistent round_run

abbrev flaky : ℕ → Outcome RpcError ℕ
flaky zero = err timeout
flaky (suc n) = ok 17

call-Stops_example :
    Stops rpc_default (λ a low high. high) flaky 0 (call rpc_default (λ a low high. high) flaky)
call-Stops_example = call-Stops rpc_default (λ a low high. high) flaky

round-Settled_example :
    (q : Progress) × (unreceived : List (ℕ × IndexedBlock)) × (commit_fetched
        (λ n. client)
        host
        (λ n. 100)
        config
        (run ((5, indexed) ∷ []) (start_block config progress.cursor)).sent
        progress
      ≡ ok (q, unreceived))
    × (length unreceived
        ≤ length (run ((5, indexed) ∷ []) (start_block config progress.cursor)).sent)
    × ((ms : List Move) (c : Channel (ℕ × IndexedBlock))
        → let stop =
            length (run ((5, indexed) ∷ []) (start_block config progress.cursor)).sent
            - length unreceived in
          moves 2 stop ms
              (opened (run ((5, indexed) ∷ []) (start_block config progress.cursor)).sent)
            ≡ some c
          → Settled 2 stop c
          → (RoundEnd.ended rolled_back ≡ RoundEnd.ended q) ↔ (c.unsent ≡ []))
round-Settled_example =
    round-Settled (λ n. client) host (λ n. 100) config ((5, indexed) ∷ []) progress round_run
      (omega arith)

moves-Settled_example :
    (drained.received ++ (drained.queue ++ drained.unsent)
      ≡ (run ended.delivered (start_block config 3)).sent)
    × (length drained.received ≡ min 4 (length (run ended.delivered (start_block config 3)).sent))
    × (length drained.received + length drained.queue
        ≡ min (4 + 2) (length (run ended.delivered (start_block config 3)).sent))
    × ((drained.unsent ≡ []) ↔ (length (run ended.delivered (start_block config 3)).sent ≤ 4 + 2))
moves-Settled_example =
    moves-Settled 2 4 (run ended.delivered (start_block config 3)).sent
      (sends ∷ receives ∷ sends ∷ receives ∷ []) drained run_drains drained-Settled (omega arith)
