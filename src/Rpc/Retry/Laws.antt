-- ===== src/Rpc/Retry/Laws.antt =====
-- The attempts and the waits of `call` in src/rpc/http.rs, with the delays of src/rpc/retry.rs.
use mathlib.Core.Path.{subst}
use chain_lens.Base.{
  ℕ, zero, suc, ◌+◌, ◌*◌, ◌≤◌, ◌<◌, ◌≡◌, refl, sym, ◌⊎◌, inl, inr, List, [], ◌∷◌, ◌++◌, Bool, true,
  false, ltb, ◌==◌, arith, Outcome-cases, Outcome, ok, err, panic, Bool-cases, ◌&&◌,
}
use chain_lens.Rpc.{RpcError, is_retryable}
use chain_lens.Rpc.Retry.{RetryPolicy, Event, slept, requested, attempted, attempts, call}
use chain_lens.Rpc.Retry.Delays.{delay_for_attempt-le}

-- The answer is a failure that another attempt may mend.
abbrev pub invites_retry : {T : Type 0} → Outcome RpcError T → Bool
invites_retry (ok _) = false
invites_retry (err e) = is_retryable e
invites_retry panic = false

-- What a trace asked and how long it slept.
abbrev pub requests : List Event → ℕ
requests [] = 0
requests (slept _ ∷ es) = requests es
requests (requested _ ∷ es) = suc (requests es)

abbrev pub total_sleep : List Event → ℕ
total_sleep [] = 0
total_sleep (slept d ∷ es) = d + total_sleep es
total_sleep (requested _ ∷ es) = total_sleep es

module _ (policy : RetryPolicy) where
  module _ {T : Type 0} (gen_range : ℕ → ℕ → ℕ → ℕ) (execute_once : ℕ → Outcome RpcError T) where
    -- What a call from the attempt `from` on does: `stop` is its last attempt.
    pub record Stops (from : ℕ) (result : List Event × Outcome RpcError T) : Type 0 where
      pub stop : ℕ
      pub starts : from ≤ stop
      pub ends : stop ≤ policy.max_retries
      pub retried : (a : ℕ) → from ≤ a → a < stop → invites_retry (execute_once a) ≡ true
      pub final : (stop ≡ policy.max_retries) ⊎ (invites_retry (execute_once stop) ≡ false)
      pub answer : result.1 ≡ execute_once stop
      pub one_request_each : from + requests result.0 ≡ stop + 1

    attempted-requests : (a : ℕ) → requests (attempted policy gen_range execute_once a) ≡ 1
    unfolding attempted
    attempted-requests zero = refl
    attempted-requests (suc a) = refl

    requests-append : (xs ys : List Event) → requests (xs ++ ys) ≡ requests xs + requests ys
    requests-append [] ys = omega arith
    requests-append (slept d ∷ xs) ys = requests-append xs ys
    requests-append (requested a ∷ xs) ys = ground (arith, requests-append xs ys)

    attempts-again :
        (left a : ℕ)
        → invites_retry (execute_once a) ≡ true
        → ltb a policy.max_retries ≡ true
        → attempts policy gen_range execute_once (suc left) a ≡ (
          attempted policy gen_range execute_once a
              ++ (attempts policy gen_range execute_once left (a + 1)).0,
          (attempts policy gen_range execute_once left (a + 1)).1,
        )
    unfolding attempts
    attempts-again left a again more = elim (Outcome-cases (execute_once a)) [
      | inl (value, is_ok) ↦ ground (arith, is_ok)
      | inr (inl is_panic) ↦ ground (arith, is_panic)
      | inr (inr (e, is_err)) ↦
          let retryable : is_retryable e ≡ true = ground (arith, is_err) in
          rw (attempts, is_err, retryable, more) refl
    ]

    attempts-last :
        (left a : ℕ)
        → (invites_retry (execute_once a) && ltb a policy.max_retries) ≡ false
        → attempts policy gen_range execute_once (suc left) a
          ≡ (attempted policy gen_range execute_once a, execute_once a)
    unfolding attempts
    attempts-last left a last = elim (Outcome-cases (execute_once a)) [
      | inl (value, is_ok) ↦ rw (attempts, is_ok) refl
      | inr (inl is_panic) ↦ rw (attempts, is_panic) refl
      | inr (inr (e, is_err)) ↦
          let not_again : (is_retryable e && ltb a policy.max_retries) ≡ false =
            ground (arith, is_err) in
          rw (attempts, is_err, not_again) refl
    ]

    Stops-last :
        (left a : ℕ)
        → a ≤ policy.max_retries
        → (a ≡ policy.max_retries) ⊎ (invites_retry (execute_once a) ≡ false)
        → (invites_retry (execute_once a) && ltb a policy.max_retries) ≡ false
        → Stops a (attempts policy gen_range execute_once (suc left) a)
    Stops-last left a within final last =
        subst (Stops a) (sym (attempts-last left a last)) (record {
          stop = a;
          starts = omega arith;
          ends = within;
          retried = λ b l u. absurd (omega arith);
          final = final;
          answer = refl;
          one_request_each = ground (arith, attempted-requests a);
        })

    attempts-Stops :
        (left attempt : ℕ)
        → attempt + left ≡ policy.max_retries + 1
        → 0 < left
        → Stops attempt (attempts policy gen_range execute_once left attempt)
    attempts-Stops zero attempt e h = absurd (omega (arith, h))
    attempts-Stops (suc left) attempt e h =
        let within : attempt ≤ policy.max_retries = omega arith in
        elim (Bool-cases (invites_retry (execute_once attempt))) [
          | inl again ↦ elim (Bool-cases (ltb attempt policy.max_retries)) [
            | inl more ↦
                let rest = attempts-Stops left (attempt + 1) (omega arith) (ground arith) in
                subst (Stops attempt) (sym (attempts-again left attempt again more)) (record {
                  stop = rest.stop;
                  starts = omega (arith, rest.starts);
                  ends = rest.ends;
                  retried = λ b l u. elim (Bool-cases (b == attempt)) [
                    | inl same ↦
                        let is : attempt ≡ b = ground arith in
                        subst (λ c. invites_retry (execute_once c) ≡ true) is again
                    | inr other ↦ rest.retried b (ground arith) u
                  ];
                  final = rest.final;
                  answer = rest.answer;
                  one_request_each = ground (
                    arith,
                    attempted-requests attempt,
                    rest.one_request_each,
                    requests-append (attempted policy gen_range execute_once attempt)
                        (attempts policy gen_range execute_once left (attempt + 1)).0,
                  );
                })
            | inr refuses ↦ Stops-last left attempt within (inl (ground arith)) (ground arith)
          ]
          | inr refuses ↦ Stops-last left attempt within (inr refuses) (ground arith)
        ]

    -- A call makes at most `max_retries + 1` requests, stops at the first answer that is not a
    -- failure worth retrying, or at the last attempt, and gives that attempt's answer.
    pub call-Stops : Stops 0 (call policy gen_range execute_once)
    unfolding call
    call-Stops = attempts-Stops (policy.max_retries + 1) 0 (omega arith) (omega arith)

    module _
        (bounded : (a low high : ℕ)
          → low ≤ high
          → (low ≤ gen_range a low high) × (gen_range a low high ≤ high)) where
      total_sleep-append :
          (xs ys : List Event) → total_sleep (xs ++ ys) ≡ total_sleep xs + total_sleep ys
      total_sleep-append [] ys = omega arith
      total_sleep-append (slept d ∷ xs) ys = ground (arith, total_sleep-append xs ys)
      total_sleep-append (requested a ∷ xs) ys = total_sleep-append xs ys

      attempted-total_sleep :
          (a : ℕ) → total_sleep (attempted policy gen_range execute_once (suc a)) ≤ policy.max_delay
      unfolding attempted
      attempted-total_sleep a =
          omega (arith, (delay_for_attempt-le policy (gen_range a) (bounded a) a).1)

      attempts-total_sleep :
          (left a : ℕ)
          → total_sleep (attempts policy gen_range execute_once left (suc a)).0
            ≤ left * policy.max_delay
      unfolding attempts
      attempts-total_sleep zero a = omega arith
      attempts-total_sleep (suc left) a = ground (
        arith,
        attempted-total_sleep a,
        attempts-total_sleep left (suc a),
        total_sleep-append (attempted policy gen_range execute_once (suc a))
            (attempts policy gen_range execute_once left (suc a + 1)).0,
      )

      -- The sleeps of a call last at most `max_retries` times the largest delay in all, when the
      -- random numbers lie in their ranges.
      pub call-total_sleep :
          total_sleep (call policy gen_range execute_once).0 ≤ policy.max_retries * policy.max_delay
      unfolding call attempts attempted
      call-total_sleep =
          let rest : total_sleep (attempts policy gen_range execute_once policy.max_retries 1).0
              ≤ policy.max_retries * policy.max_delay =
            attempts-total_sleep policy.max_retries 0 in
          ground (arith, rest)
