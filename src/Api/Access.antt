-- ===== src/Api/Access.antt =====
-- Who may call the API: src/api/auth.rs and src/api/ratelimit.rs. The limiter is a parameter.
use mathlib.Core.Option.{some-injective}
use chain_lens.Base.{
  ℕ, Option, none, some, ◌≡◌, ◌↔◌, ◌⊎◌, inl, inr, refl, ◌∙◌, [], Bool, not, if◌then◌else◌, bytes_eq,
  bytes_eq_iff, unwrap_or, max, Option-cases, Bool-cases, arith,
}
use chain_lens.Domain.{Bytes}

pub record ApiAuth : Type 0 where
  pub api_key : Option Bytes

-- The statuses with which the middlewares answer themselves, or what comes after them.
pub data Answer (A : Type 0) : Type 0 where
  unauthorized too_many_requests : Answer A
  passed : A → Answer A

module _ {A : Type 0} where
  -- `ApiAuth::middleware`, on the extension of the request and its header `X-API-Key`.
  unfoldable pub authorize : Option ApiAuth → (header : Option Bytes) → A → Answer A
  authorize none header next = passed next
  authorize (some auth) header next = elim auth.api_key [
    | none ↦ passed next
    | some required_key ↦
        if not (bytes_eq (unwrap_or header []) required_key) then unauthorized else passed next
  ]

  -- `ApiRateLimit::middleware`, on whether the limiter allows the request.
  unfoldable pub limit_rate : (allowed : Bool) → A → Answer A
  limit_rate allowed next = if not allowed then too_many_requests else passed next

-- `requests_per_second.max(1)`
unfoldable pub safe_limit : ℕ → ℕ
safe_limit requests_per_second = max requests_per_second 1

-- The key that is asked for.
abbrev pub asked : Option ApiAuth → Option Bytes
asked none = none
asked (some auth) = auth.api_key

-- A request passes exactly when the header, empty if it is missing, is the key, or no key is asked
-- for; and else it is answered as unauthorized.
pub authorize_iff :
    {A : Type 0} (auth : Option ApiAuth) (header : Option Bytes) (next : A)
    → ((authorize auth header next ≡ passed next)
        ↔ ((key : Bytes) → asked auth ≡ some key → unwrap_or header [] ≡ key))
      × ((authorize auth header next ≡ passed next) ⊎ (authorize auth header next ≡ unauthorized))
unfolding authorize
authorize_iff none header next = ((λ _ key e. cc, λ _. refl), inl refl)
authorize_iff (some auth) header next = elim (Option-cases auth.api_key) [
  | inl nothing ↦ rw nothing ((λ _ key e. cc, λ _. refl), inl refl)
  | inr (required, known) ↦ elim (Bool-cases (bytes_eq (unwrap_or header []) required)) [
    | inl same ↦
        rw (known, same)
          (
            (
              λ _ key e.
                  (bytes_eq_iff (unwrap_or header []) required).0 same ∙ some-injective _ _ e,
              λ _. refl,
            ),
            inl refl,
          )
    | inr other ↦
        rw (known, other)
          (
            (
              λ h. absurd (ground (arith, h)),
              λ each. absurd (
                  ground (
                    arith,
                    other,
                    (bytes_eq_iff (unwrap_or header []) required).1 (each required refl),
                  )),
            ),
            inr refl,
          )
  ]
]
