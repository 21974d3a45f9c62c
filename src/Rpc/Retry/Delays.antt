-- ===== src/Rpc/Retry/Delays.antt =====
-- The delays of src/rpc/retry.rs.
use native.Mathlib.Nat.{le_trans, mul-le-mul_left, mod-le}
use chain_lens.Base.{ℕ, ◌*◌, ◌^◌, ◌%◌, ◌≤◌, leb, ◌==◌, arith, if◌then◌else◌}
use chain_lens.Rpc.Retry.{RetryPolicy, saturate, ceiling, delay_for_attempt}

module _ (policy : RetryPolicy) where
  ceiling-le : (attempt : ℕ) → ceiling policy attempt ≤ policy.max_delay
  unfolding ceiling
  ceiling-le attempt = ground arith

  saturate-le : (n : ℕ) → saturate n ≤ n
  unfolding saturate
  saturate-le n = ground arith

  capped-le : (a b : ℕ) → (if leb a b then a else b) ≤ a
  capped-le a b = ground arith

  ceiling-le_backoff : (attempt : ℕ) → ceiling policy attempt ≤ policy.base_delay * 2 ^ attempt
  unfolding ceiling
  ceiling-le_backoff attempt =
      let power = saturate (2 ^ attempt) in
      let backoff_ms = saturate (policy.base_delay * power) in
      le_trans (capped-le backoff_ms policy.max_delay) (
        le_trans (saturate-le (policy.base_delay * power))
          (mul-le-mul_left policy.base_delay (saturate-le (2 ^ attempt))))

  drawn-le : (g c : ℕ) → g ≤ c → (if c == 0 then 0 else g % 2 ^ 64) ≤ c
  drawn-le g c h = ground (arith, mod-le g (2 ^ 64))

  delay-le_ceiling :
      (gen_range : ℕ → ℕ → ℕ)
      → ((low high : ℕ) → low ≤ high → (low ≤ gen_range low high) × (gen_range low high ≤ high))
      → (attempt : ℕ) → delay_for_attempt gen_range policy attempt ≤ ceiling policy attempt
  unfolding delay_for_attempt
  delay-le_ceiling gen_range bounded attempt =
      let top = ceiling policy attempt in
      drawn-le (gen_range 0 top) top (bounded 0 top (omega arith)).1

  -- A delay is at most the base delay doubled for each attempt, and at most the largest delay,
  -- when the random number lies in its range.
  pub delay_for_attempt-le :
      (gen_range : ℕ → ℕ → ℕ)
      → ((low high : ℕ) → low ≤ high → (low ≤ gen_range low high) × (gen_range low high ≤ high))
      → (attempt : ℕ)
      → (delay_for_attempt gen_range policy attempt ≤ policy.base_delay * 2 ^ attempt)
        × (delay_for_attempt gen_range policy attempt ≤ policy.max_delay)
  delay_for_attempt-le gen_range bounded attempt =
      let drawn = delay-le_ceiling gen_range bounded attempt in
      (le_trans drawn (ceiling-le_backoff attempt), le_trans drawn (ceiling-le attempt))
