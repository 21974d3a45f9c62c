-- ===== src/Rpc/Retry.antt =====
-- Retries of an RPC call: src/rpc/retry.rs and the loop of `call` in src/rpc/http.rs. What one
-- attempt answers (`execute_once`, over the network) and the random jitter are functions of the
-- attempt's number; a trace records the sleeps and the requests.
pub mod Delays
pub mod Laws
use chain_lens.Base.{
  ℕ, zero, suc, ◌+◌, ◌^◌, ◌*◌, ◌-◌, ◌%◌, List, [], ◌∷◌, ◌++◌, Bool, true, false, ◌&&◌,
  if◌then◌else◌, ltb, leb, ◌==◌, Outcome, ok, err, panic,
}
use chain_lens.Rpc.{RpcError, connection, retries_exhausted, is_retryable}

-- The delays are in milliseconds.
pub record RetryPolicy : Type 0 where
  pub max_retries : ℕ
  pub base_delay : ℕ
  pub max_delay : ℕ

unfoldable pub rpc_default : RetryPolicy
rpc_default = record { max_retries = 3; base_delay = 200; max_delay = 8000 }

-- `saturating_mul` and `saturating_pow` of `u128`.
unfoldable pub saturate : ℕ → ℕ
saturate n = if ltb n (2 ^ 128) then n else 2 ^ 128 - 1

-- The largest delay before attempt `attempt + 1`.
unfoldable pub ceiling : RetryPolicy → ℕ → ℕ
unfolding saturate
ceiling policy attempt =
    let backoff_ms = saturate (policy.base_delay * saturate (2 ^ attempt)) in
    if leb backoff_ms policy.max_delay then backoff_ms else policy.max_delay

-- `gen_range low high` draws a number, both ends included; the cast to `u64` may truncate.
unfoldable pub delay_for_attempt : (gen_range : ℕ → ℕ → ℕ) → RetryPolicy → ℕ → ℕ
unfolding ceiling
delay_for_attempt gen_range policy attempt =
    let capped_ms = ceiling policy attempt in
    if capped_ms == 0 then 0 else gen_range 0 capped_ms % 2 ^ 64

pub data Event : Type 0 where
  slept : ℕ → Event
  requested : ℕ → Event

-- The attempts from `attempt` on, `left` of them; the events of the trace are in their order.
module _ {T : Type 0} (policy : RetryPolicy) (gen_range : ℕ → ℕ → ℕ → ℕ)
    (execute_once : ℕ → Outcome RpcError T) where
  -- The delay and the request of one attempt.
  unfoldable pub attempted : ℕ → List Event
  unfolding delay_for_attempt
  attempted zero = requested zero ∷ []
  attempted (suc attempt) =
      slept (delay_for_attempt (gen_range attempt) policy attempt) ∷ requested (suc attempt) ∷ []

  unfoldable pub attempts : (left attempt : ℕ) → List Event × Outcome RpcError T
  unfolding is_retryable attempted
  attempts zero attempt = ([], err (connection retries_exhausted))
  attempts (suc left) attempt =
      let (later, last) = attempts left (attempt + 1) in
      elim (execute_once attempt) [
        | ok value ↦ (attempted attempt, ok value)
        | err e ↦
            if is_retryable e && ltb attempt policy.max_retries
            then (attempted attempt ++ later, last)
            else (attempted attempt, err e)
        | panic ↦ (attempted attempt, panic)
      ]

  unfoldable pub call : List Event × Outcome RpcError T
  unfolding attempts
  call = attempts (policy.max_retries + 1) 0
