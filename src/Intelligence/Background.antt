-- ===== src/Intelligence/Background.antt =====
-- The task that analyses each committed block: src/intelligence/background.rs. Its channel is the
-- list of the messages that it receives. What the queries return and the other analyses are
-- parameters, and what it writes is a list in the order of the writes.
pub mod Stops
use chain_lens.Base.{ℕ, Option, none, some, List, [], ◌∷◌, ◌++◌, map, Outcome, ok, err, panic}
use chain_lens.Domain.{Bytes}
use chain_lens.Sql.{SqlError}
use chain_lens.Intelligence.Actions.{ExplainError, Formats, show_address}
use chain_lens.Intelligence.Actions.Explain.{TransactionExplanation}

pub data IntelligenceTask : Type 0 where
  block_committed : (block_number : ℕ) → IntelligenceTask
  shutdown : IntelligenceTask

-- The analyses that are called; a panic of one unwinds the task.
pub record Analyses (Stats Profile Anomaly Analytics Event : Type 0) : Type 0 where
  pub tx_hashes : ℕ → Outcome SqlError (List Bytes)
  pub addresses : ℕ → Outcome SqlError (List Bytes)
  pub contracts : ℕ → Outcome SqlError (List Bytes)
  pub explain_transaction : Bytes → Outcome ExplainError TransactionExplanation
  pub analyze_address : Bytes → Outcome ExplainError Stats
  pub analyze_contract : Bytes → Outcome ExplainError Profile
  pub detect_anomalies : ℕ → Outcome ExplainError (List Anomaly)
  pub analyze_block : ℕ → Outcome SqlError Analytics
  pub mev_events : Analytics → List Event

-- The calls of src/intelligence/persist.rs, whose results are dropped.
pub data Write (Stats Profile Anomaly Analytics Event : Type 0) : Type 0 where
  transaction_actions : TransactionExplanation → Write Stats Profile Anomaly Analytics Event
  address_stats : Stats → Write Stats Profile Anomaly Analytics Event
  contract_profile : Profile → Write Stats Profile Anomaly Analytics Event
  anomaly : Anomaly → Write Stats Profile Anomaly Analytics Event
  block_analytics : Analytics → Write Stats Profile Anomaly Analytics Event
  mev_event : Event → Write Stats Profile Anomaly Analytics Event

-- What a piece of the task has written, and whether the task still runs after it.
pub data Ran (W : Type 0) : Type 0 where
  goes_on : List W → Ran W
  stopped : List W → Ran W

module _ {W : Type 0} where
  -- One piece after the other.
  abbrev pub then_run : Ran W → Ran W → Ran W
  then_run (stopped ws) next = stopped ws
  then_run (goes_on ws) (goes_on vs) = goes_on (ws ++ vs)
  then_run (goes_on ws) (stopped vs) = stopped (ws ++ vs)

  -- `match analysis { Ok(a) => persist, Err(e) => log }`
  abbrev pub persist : {E A : Type 0} → (A → List W) → Outcome E A → Ran W
  persist write (ok a) = goes_on (write a)
  persist write (err e) = goes_on []
  persist write panic = stopped []

  -- `query?`: an error ends the block, and the task logs it and goes on.
  abbrev pub queried : {E A : Type 0} → Outcome E A → (A → Ran W) → Ran W
  queried (ok a) next = next a
  queried (err e) next = goes_on []
  queried panic next = stopped []

  unfoldable pub each : {A : Type 0} → (A → Ran W) → List A → Ran W
  each f [] = goes_on []
  each f (a ∷ rest) = then_run (f a) (each f rest)

module _ {Stats Profile Anomaly Analytics Event : Type 0} (fmt : Formats)
    (run : Analyses Stats Profile Anomaly Analytics Event) where
  abbrev pub W : Type 0
  W = Write Stats Profile Anomaly Analytics Event

  unfoldable pub explain_one : Bytes → Ran W
  unfolding show_address
  explain_one hash =
      persist (λ e. transaction_actions e ∷ []) (run.explain_transaction (show_address fmt hash))

  -- The first loop of `process_block`.
  unfoldable pub explain_all : List Bytes → Ran W
  unfolding each explain_one
  explain_all tx_hashes = each explain_one tx_hashes

  unfoldable pub analyze_addresses : List Bytes → Ran W
  unfolding each show_address
  analyze_addresses addresses =
      each (λ a. persist (λ s. address_stats s ∷ []) (run.analyze_address (show_address fmt a)))
        addresses

  unfoldable pub analyze_contracts : List Bytes → Ran W
  unfolding each show_address
  analyze_contracts contracts =
      each (λ a. persist (λ p. contract_profile p ∷ []) (run.analyze_contract (show_address fmt a)))
        contracts

  -- What follows the three loops.
  unfoldable pub analyze_whole : ℕ → Ran W
  analyze_whole block_number =
      then_run (persist (map anomaly) (run.detect_anomalies block_number)) (
        persist (λ a. block_analytics a ∷ map mev_event (run.mev_events a))
          (run.analyze_block block_number))

  -- What follows the first loop.
  unfoldable pub analyze_rest : ℕ → Ran W
  unfolding analyze_addresses analyze_contracts analyze_whole
  analyze_rest block_number = queried (run.addresses block_number) (λ addresses.
      then_run (analyze_addresses addresses) (
        queried (run.contracts block_number)
          (λ contracts. then_run (analyze_contracts contracts) (analyze_whole block_number))))

  unfoldable pub process_block : ℕ → Ran W
  unfolding explain_all analyze_rest
  process_block block_number =
      queried (run.tx_hashes block_number)
        (λ tx_hashes. then_run (explain_all tx_hashes) (analyze_rest block_number))

  -- The loop of the task over its messages.
  unfoldable pub process : List IntelligenceTask → Ran W
  unfolding process_block
  process [] = goes_on []
  process (shutdown ∷ tasks) = stopped []
  process (block_committed block_number ∷ tasks) =
      then_run (process_block block_number) (process tasks)
