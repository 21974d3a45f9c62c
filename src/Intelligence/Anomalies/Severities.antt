-- ===== src/Intelligence/Anomalies/Severities.antt =====
-- The order and the severities of what src/intelligence/anomaly.rs reports.
use chain_lens.Base.{
  All-append, unwrap_or, inl, inr, ℕ, ◌≤◌, ◌≡◌, refl, List, [], ◌∷◌, map, Bool, true, false,
  if◌then◌else◌, ltb, ◌==◌, length, keep, All, arith, Bool-cases, Falling, sort_by-Falling,
  sort_by_keeps, All-sort_by,
}
use chain_lens.Intelligence.Anomalies.{
  AnomalyType, large_transfer, activity_spike, new_wallet_high_value, contract_interaction_spike,
  coordinated_activity, avg_value, Severity, medium, high, critical, Anomaly, Floats,
  LargeTransferRow, BlockRow, ContractRow, AnomalyRows, severity_order, large_transfer_anomaly,
  transfer_severity, detect_large_transfers,
}
use chain_lens.Intelligence.Anomalies.Detectors.{
  spike_anomaly, spikes, detect_activity_spikes, wallet_anomaly, detect_new_wallet_high_value,
  contract_anomaly, busy_contracts, detect_contract_interaction_spikes, coordinated_anomaly,
  coordinated_in, detect_coordinated_activity, all_anomalies, rank, sorted_anomalies,
}

-- The severities that are used: nothing is low, and only a transfer is critical.
abbrev pub Graded : AnomalyType → Severity → Type 0
Graded kind severity = (2 ≤ severity_order severity) × (severity ≡ critical → kind ≡ large_transfer)

Graded-high : (kind : AnomalyType) → Graded kind high
unfolding severity_order
Graded-high kind = (omega arith, λ h. cc)

Graded-if : (kind : AnomalyType) (b : Bool) → Graded kind (if b then high else medium)
unfolding severity_order
Graded-if kind true = Graded-high kind
Graded-if kind false = (omega arith, λ h. cc)

module _ {A : Type 0} (P : A → Type 0) where
  All-if : (b : Bool) (x : A) (l : List A) → P x → All P l → All P (if b then x ∷ l else l)
  All-if true x l p each = (p, each)
  All-if false x l p each = each

  All-of_map : {B : Type 0} (g : B → A) → ((b : B) → P (g b)) → (bs : List B) → All P (map g bs)
  All-of_map g each [] = tt
  All-of_map g each (b ∷ bs) = (each b, All-of_map g each bs)

module _ {F : Type 0} (f : Floats F) (q : AnomalyRows) where
  abbrev pub IsGraded : Anomaly F → Type 0
  IsGraded a = Graded a.anomaly_type a.severity

  transfer_severity-le : (value : F) → 2 ≤ severity_order (transfer_severity f q value)
  unfolding transfer_severity severity_order
  transfer_severity-le value =
      elim (Bool-cases (f.gt value (f.mul (avg_value f q) (f.of_nat 100)))) [
        | inl huge ↦ rw huge (omega arith)
        | inr other ↦ elim (Bool-cases (f.gt value (f.mul (avg_value f q) (f.of_nat 50)))) [
          | inl big ↦ rw (other, big) (omega arith)
          | inr small ↦ rw (other, small) (omega arith)
        ]
      ]

  large_transfer-IsGraded : (row : LargeTransferRow) → IsGraded (large_transfer_anomaly f q row)
  unfolding large_transfer_anomaly transfer_severity severity_order
  large_transfer-IsGraded row =
      (transfer_severity-le (unwrap_or (f.parse row.value) (f.of_nat 0)), λ _. refl)

  spikes-IsGraded : (blocks : List BlockRow) → All IsGraded (spikes f q blocks)
  unfolding spikes spike_anomaly
  spikes-IsGraded [] = tt
  spikes-IsGraded (b ∷ blocks) =
      All-if IsGraded _ (spike_anomaly f q b) (spikes f q blocks) (Graded-if activity_spike _)
        (spikes-IsGraded blocks)

  detect_activity_spikes-IsGraded : All IsGraded (detect_activity_spikes f q)
  unfolding detect_activity_spikes
  detect_activity_spikes-IsGraded = elim (Bool-cases (ltb (length q.recent_blocks) 10)) [
    | inl few ↦ rw few tt
    | inr many ↦ rw many (spikes-IsGraded q.recent_blocks)
  ]

  busy_contracts-IsGraded : (rows : List ContractRow) → All IsGraded (busy_contracts f q rows)
  unfolding busy_contracts contract_anomaly
  busy_contracts-IsGraded [] = tt
  busy_contracts-IsGraded (row ∷ rows) =
      All-if IsGraded _ (contract_anomaly f q row) (busy_contracts f q rows)
        (Graded-if contract_interaction_spike _) (busy_contracts-IsGraded rows)

  coordinated_in-IsGraded : (numbers : List ℕ) → All IsGraded (coordinated_in f q numbers)
  unfolding coordinated_in coordinated_anomaly
  coordinated_in-IsGraded [] = tt
  coordinated_in-IsGraded (n ∷ numbers) =
      All-append IsGraded (map (coordinated_anomaly f q n) (q.coordinated n))
        (coordinated_in f q numbers)
        (All-of_map IsGraded (coordinated_anomaly f q n) (λ row. Graded-if coordinated_activity _)
          (q.coordinated n))
        (coordinated_in-IsGraded numbers)

  wallets-IsGraded : All IsGraded (detect_new_wallet_high_value f q)
  unfolding detect_new_wallet_high_value wallet_anomaly
  wallets-IsGraded =
      All-of_map IsGraded (wallet_anomaly f q) (λ row. Graded-high new_wallet_high_value)
        q.new_wallets

  all_anomalies-IsGraded : All IsGraded (all_anomalies f q)
  unfolding all_anomalies detect_large_transfers detect_contract_interaction_spikes
      detect_coordinated_activity
  all_anomalies-IsGraded =
      All-append IsGraded _ _
        (All-of_map IsGraded (large_transfer_anomaly f q) large_transfer-IsGraded _)
        (All-append IsGraded _ _ detect_activity_spikes-IsGraded (
          All-append IsGraded _ _ wallets-IsGraded (
            All-append IsGraded _ _ (busy_contracts-IsGraded q.recent_contracts)
              (coordinated_in-IsGraded q.recent_numbers))))

  -- The anomalies come in the order of their severity, the critical ones first, and those of one
  -- severity are exactly the ones that the detectors found, in their order. None is low, and a
  -- critical one is a large transfer.
  pub sorted_anomalies-Falling :
      Falling (rank f q) (sorted_anomalies f q)
      × ((k : ℕ)
          → keep (λ a. rank f q a == k) (sorted_anomalies f q)
            ≡ keep (λ a. rank f q a == k) (all_anomalies f q))
      × All IsGraded (sorted_anomalies f q)
  unfolding sorted_anomalies
  sorted_anomalies-Falling = (
    sort_by-Falling (rank f q) (all_anomalies f q),
    λ k. sort_by_keeps (rank f q) k (all_anomalies f q),
    All-sort_by (rank f q) IsGraded (all_anomalies f q) all_anomalies-IsGraded,
  )
