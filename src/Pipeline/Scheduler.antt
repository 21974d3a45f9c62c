-- ===== src/Pipeline/Scheduler.antt =====
-- Which block comes next: src/pipeline/scheduler.rs, with `ChainHead` of mod.rs.
use chain_lens.Base.{ℕ, ◌+◌, ◌≤◌, ◌<◌, Option, none, some, if◌then◌else◌, ltb, max, ◌≡◌, ◌↔◌, arith}

pub record ChainHead : Type 0 where
  pub latest : ℕ
  pub safe : ℕ
  pub finalized : ℕ

unfoldable pub next_block : (cursor : ℕ) → ChainHead → (backfill_from : ℕ) → Option ℕ
next_block cursor head backfill_from =
    if ltb cursor backfill_from
    then some backfill_from
    else if ltb cursor head.finalized
    then some (cursor + 1)
    else if ltb cursor head.latest
    then some (cursor + 1)
    else none

-- The cursor moves forward, never past a block that it has to index, and stops exactly when it
-- stands at or behind the start of the backfill and at the head: there is no next block if and only
-- if the cursor has reached `backfill_from`, the finalized block and the latest; otherwise the next
-- block is the one after the cursor, or `backfill_from` if that is further.
pub next_block_lem :
    (cursor : ℕ) (head : ChainHead) (backfill_from : ℕ)
    → ((next_block cursor head backfill_from ≡ none)
        ↔ ((backfill_from ≤ cursor) × (head.finalized ≤ cursor) × (head.latest ≤ cursor)))
      × ((n : ℕ)
          → next_block cursor head backfill_from ≡ some n
          → (cursor < n) × (n ≡ max (cursor + 1) backfill_from))
unfolding next_block
next_block_lem cursor head backfill_from = (
  (λ h. (ground arith, ground arith, ground arith), λ h. ground arith),
  λ n h. (ground arith, ground arith),
)
