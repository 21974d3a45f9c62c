-- ===== src/Pipeline/Channel.antt =====
-- The bounded channel from the sequencer of src/pipeline/sequencer.rs to the loop of src/main.rs. A
-- send waits while the channel is full. The loop stops receiving when a commit reorganises; the
-- receiver lives on until the round ends, so a send then waits and does not fail. Who moves next is
-- any sequence of moves.
pub mod Settles
use chain_lens.Base.{ℕ, Option, none, some, List, [], ◌∷◌, ◌++◌, if◌then◌else◌, ltb, length, ◌≡◌}

-- What the sequencer has not sent yet, what waits in the channel, and what the loop has received.
pub record Channel (B : Type 0) : Type 0 where
  pub unsent : List B
  pub queue : List B
  pub received : List B

pub data Move : Type 0 where
  sends receives : Move

unfoldable pub opened : {B : Type 0} → List B → Channel B
opened blocks = record { unsent = blocks; queue = []; received = [] }

-- `stop` is the number of receipts after which the loop breaks, or at least the number of blocks.
module _ {B : Type 0} (capacity stop : ℕ) where
  unfoldable pub move : Move → Channel B → Option (Channel B)
  move sends c = elim c.unsent [
    | [] ↦ none
    | b ∷ rest ↦
        if ltb (length c.queue) capacity
        then some (record { unsent = rest; queue = c.queue ++ b ∷ []; received = c.received })
        else none
  ]
  move receives c = elim c.queue [
    | [] ↦ none
    | b ∷ rest ↦
        if ltb (length c.received) stop
        then some (record { unsent = c.unsent; queue = rest; received = c.received ++ b ∷ [] })
        else none
  ]

  unfoldable pub moves : List Move → Channel B → Option (Channel B)
  unfolding move
  moves [] c = some c
  moves (m ∷ ms) c = elim (move m c) [ none ↦ none | some c' ↦ moves ms c' ]

  -- Neither the sequencer nor the loop can go on.
  abbrev pub Settled : Channel B → Type 0
  Settled c = (move sends c ≡ none) × (move receives c ≡ none)
