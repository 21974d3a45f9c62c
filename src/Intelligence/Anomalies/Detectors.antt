-- ===== src/Intelligence/Anomalies/Detectors.antt =====
-- The other detectors of src/intelligence/anomaly.rs, and `sorted_anomalies` over them all.
use chain_lens.Base.{
  Outcome, ok, err, panic, ◌>>=◌, ℕ, none, some, List, [], ◌∷◌, ◌++◌, if◌then◌else◌, ltb, leb,
  length, take, map, text, unwrap_or, sort_by,
}
use chain_lens.Sql.{SqlError}
use chain_lens.Intelligence.Anomalies.{
  activity_spike, new_wallet_high_value, contract_interaction_spike, coordinated_activity, medium,
  high, Anomaly, Floats, BlockRow, WalletRow, ContractRow, CoordinatedRow, AnomalyRows,
  AnomalyQueries, severity_order, join, hex, number, detect_large_transfers,
}

module _ {F : Type 0} (f : Floats F) (q : AnomalyRows) where
  unfoldable pub avg_tx_count : F
  avg_tx_count =
      f.div (f.sum (map (λ (b : BlockRow). f.of_nat b.tx_count) q.recent_blocks))
        (f.of_nat (length q.recent_blocks))

  unfoldable pub spike_anomaly : BlockRow → Anomaly F
  unfolding avg_tx_count
  spike_anomaly block =
      let threshold = f.mul avg_tx_count (f.of_nat 3) in
      record {
        id = 0;
        anomaly_type = activity_spike;
        severity =
            if f.gt (f.of_nat block.tx_count) (f.mul threshold (f.of_nat 2)) then high else medium;
        detected_at = block.timestamp;
        entity = number f q block.number;
        entity_type = text "block";
        description =
            text "Block "
            ++ number f q block.number
            ++ text " has "
            ++ number f q block.tx_count
            ++ text " transactions, significantly above average ("
            ++ f.show_0 avg_tx_count
            ++ text ")";
        observed_value = f.of_nat block.tx_count;
        baseline_value = avg_tx_count;
        threshold = threshold;
        evidence =
            (text "block_number: " ++ number f q block.number)
            ∷ (text "tx_count: " ++ number f q block.tx_count)
            ∷ (text "avg_tx_count: " ++ f.show_0 avg_tx_count)
            ∷ [];
        block_number = some block.number;
        tx_hash = none;
      }

  -- The loop over the blocks.
  unfoldable pub spikes : List BlockRow → List (Anomaly F)
  unfolding avg_tx_count spike_anomaly
  spikes [] = []
  spikes (block ∷ blocks) =
      let rest = spikes blocks in
      if f.gt (f.of_nat block.tx_count) (f.mul avg_tx_count (f.of_nat 3))
      then spike_anomaly block ∷ rest
      else rest

  unfoldable pub detect_activity_spikes : List (Anomaly F)
  unfolding spikes
  detect_activity_spikes = if ltb (length q.recent_blocks) 10 then [] else spikes q.recent_blocks

  unfoldable pub wallet_anomaly : WalletRow → Anomaly F
  wallet_anomaly row = record {
    id = 0;
    anomaly_type = new_wallet_high_value;
    severity = high;
    detected_at = row.first_seen;
    entity = hex f q row.from_addr;
    entity_type = text "address";
    description =
        text "New wallet with only "
        ++ number f q row.tx_count
        ++ text " transactions performed high-value operations ("
        ++ row.total_value
        ++ text " wei total)";
    observed_value = unwrap_or (f.parse row.total_value) (f.of_nat 0);
    baseline_value = f.of_nat 0;
    threshold = f.of_nat 1000;
    evidence =
        (text "address: " ++ hex f q row.from_addr)
        ∷ (text "tx_count: " ++ number f q row.tx_count)
        ∷ (text "total_value: " ++ row.total_value)
        ∷ [];
    block_number = none;
    tx_hash = none;
  }

  unfoldable pub detect_new_wallet_high_value : List (Anomaly F)
  unfolding wallet_anomaly
  detect_new_wallet_high_value = map wallet_anomaly q.new_wallets

  unfoldable pub contract_anomaly : ContractRow → Anomaly F
  contract_anomaly row = record {
    id = 0;
    anomaly_type = contract_interaction_spike;
    severity = if ltb 10000 row.interaction_count then high else medium;
    detected_at = row.last_seen;
    entity = hex f q row.to_addr;
    entity_type = text "contract";
    description =
        text "Contract received "
        ++ number f q row.interaction_count
        ++ text " interactions, indicating unusual activity";
    observed_value = f.of_nat row.interaction_count;
    baseline_value = f.of_nat 100;
    threshold = f.of_nat 1000;
    evidence =
        (text "contract: " ++ hex f q row.to_addr)
        ∷ (text "interaction_count: " ++ number f q row.interaction_count)
        ∷ [];
    block_number = none;
    tx_hash = none;
  }

  -- The loop over the contracts.
  unfoldable pub busy_contracts : List ContractRow → List (Anomaly F)
  unfolding contract_anomaly
  busy_contracts [] = []
  busy_contracts (row ∷ rows) =
      let rest = busy_contracts rows in
      if ltb 1000 row.interaction_count then contract_anomaly row ∷ rest else rest

  unfoldable pub detect_contract_interaction_spikes : List (Anomaly F)
  unfolding busy_contracts
  detect_contract_interaction_spikes = busy_contracts q.recent_contracts

  unfoldable pub coordinated_anomaly : ℕ → CoordinatedRow → Anomaly F
  unfolding join
  coordinated_anomaly block_number row = record {
    id = 0;
    anomaly_type = coordinated_activity;
    severity = if leb 10 row.addr_count then high else medium;
    detected_at = row.first_seen;
    entity = hex f q row.to_addr;
    entity_type = text "contract";
    description =
        number f q row.addr_count
        ++ text " addresses interacted with same contract in block "
        ++ number f q block_number;
    observed_value = f.of_nat row.addr_count;
    baseline_value = f.of_nat 1;
    threshold = f.of_nat 5;
    evidence =
        (text "contract: " ++ hex f q row.to_addr)
        ∷ (text "block: " ++ number f q block_number)
        ∷ (text "addresses: " ++ join (map (hex f q) (take 5 row.addresses)))
        ∷ [];
    block_number = some block_number;
    tx_hash = none;
  }

  -- The loop over the blocks, with the loop over the contracts of each.
  unfoldable pub coordinated_in : List ℕ → List (Anomaly F)
  unfolding coordinated_anomaly
  coordinated_in [] = []
  coordinated_in (n ∷ numbers) =
      map (coordinated_anomaly n) (q.coordinated n) ++ coordinated_in numbers

  unfoldable pub detect_coordinated_activity : List (Anomaly F)
  unfolding coordinated_in
  detect_coordinated_activity = coordinated_in q.recent_numbers

  -- The `extend`s of `sorted_anomalies`.
  unfoldable pub all_anomalies : List (Anomaly F)
  unfolding detect_large_transfers detect_activity_spikes detect_new_wallet_high_value
      detect_contract_interaction_spikes detect_coordinated_activity
  all_anomalies =
      detect_large_transfers f q
      ++ (detect_activity_spikes
          ++ (detect_new_wallet_high_value
              ++ (detect_contract_interaction_spikes ++ detect_coordinated_activity)))

  abbrev pub rank : Anomaly F → ℕ
  rank a = severity_order a.severity

  unfoldable pub sorted_anomalies : List (Anomaly F)
  unfolding all_anomalies sort_by severity_order
  sorted_anomalies = sort_by rank all_anomalies

module _ {F : Type 0} (f : Floats F) (q : AnomalyQueries) where
  -- The queries of the loop over the latest blocks, up to the first that fails.
  unfoldable pub coordinated_rows : List ℕ → Outcome SqlError (Unit {0})
  coordinated_rows [] = ok tt
  coordinated_rows (n ∷ numbers) = q.coordinated n >>= λ _. coordinated_rows numbers

  -- All queries in the order of the detectors, up to the first that fails.
  unfoldable pub anomaly_rows : Outcome SqlError AnomalyRows
  unfolding coordinated_rows
  anomaly_rows = do
    avg ← q.avg_value
    transfers ←
        q.large_transfers (f.show (f.mul (unwrap_or (f.parse avg) (f.of_nat 0)) (f.of_nat 10)))
    blocks ← q.recent_blocks
    wallets ← q.new_wallets
    contracts ← q.recent_contracts
    numbers ← q.recent_numbers
    _ ← coordinated_rows numbers
    ok (record {
      avg_value = avg;
      large_transfers = λ threshold. transfers;
      recent_blocks = blocks;
      new_wallets = wallets;
      recent_contracts = contracts;
      recent_numbers = numbers;
      coordinated = λ n. elim (q.coordinated n) [ ok rows ↦ rows | err _ ↦ [] | panic ↦ [] ];
    })

  unfoldable pub detect_anomalies : Outcome SqlError (List (Anomaly F))
  unfolding anomaly_rows sorted_anomalies
  detect_anomalies = do rows ← anomaly_rows; ok (sorted_anomalies f rows)
