-- ===== src/Pipeline/Sequencer.antt =====
-- Putting fetched blocks in order: src/pipeline/sequencer.rs, with `FetchedBlock` of worker.rs. A
-- block is buffered under its number until every block before it has gone on. The buffer is a map
-- in the order of its keys, as the `BTreeMap` is; the content of a block is of any type.
pub mod Maps
pub mod Order
use chain_lens.Base.{
  ℕ, zero, suc, ◌+◌, Option, none, some, List, [], ◌∷◌, ◌++◌, if◌then◌else◌, ltb, ◌==◌, length,
}

-- `sent` is what goes into the channel, as far as Pipeline.Channel lets it; the channel stays open.
pub record State (B : Type 0) : Type 0 where
  pub buffer : List (ℕ × B)
  pub expected : ℕ
  pub sent : List (ℕ × B)

module _ {B : Type 0} where
  -- `BTreeMap::insert`, which replaces the value of an equal key.
  unfoldable pub insert : ℕ → B → List (ℕ × B) → List (ℕ × B)
  insert k b [] = (k, b) ∷ []
  insert k b ((j, c) ∷ m) =
      let rest = insert k b m in
      if k == j then (k, b) ∷ m else if ltb k j then (k, b) ∷ (j, c) ∷ m else (j, c) ∷ rest

  -- `BTreeMap::remove`: the value, and the map without the key.
  unfoldable pub remove : ℕ → List (ℕ × B) → Option (B × List (ℕ × B))
  remove k [] = none
  remove k ((j, c) ∷ m) =
      let rest = remove k m in
      if k == j
      then some (c, m)
      else elim rest [ none ↦ none | some (b, m') ↦ some (b, (j, c) ∷ m') ]

  -- The loop of `drain_buffer`, on fuel.
  unfoldable pub drain : (fuel : ℕ) → State B → State B
  unfolding remove
  drain zero s = s
  drain (suc fuel) s = elim (remove s.expected s.buffer) [
    | none ↦ s
    | some (b, buffer) ↦ drain fuel (record {
      buffer = buffer;
      expected = s.expected + 1;
      sent = s.sent ++ (s.expected, b) ∷ [];
    })
  ]

  -- A removal takes one entry away, so the size of the buffer is fuel enough.
  unfoldable pub drain_buffer : State B → State B
  unfolding drain
  drain_buffer s = drain (length s.buffer) s

  -- One message of the channel.
  unfoldable pub receive : State B → ℕ × B → State B
  unfolding insert drain_buffer
  receive s (number, block) = drain_buffer (record s { buffer = insert number block s.buffer })

  unfoldable pub receive_all : State B → List (ℕ × B) → State B
  unfolding receive
  receive_all s [] = s
  receive_all s (m ∷ messages) = receive_all (receive s m) messages

  -- The whole run, to the end of the channel.
  unfoldable pub run : List (ℕ × B) → (expected : ℕ) → State B
  unfolding receive_all
  run messages expected =
      drain_buffer (receive_all (record { buffer = []; expected = expected; sent = [] }) messages)
