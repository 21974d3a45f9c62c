-- ===== src/Config/Laws.antt =====
-- The settings that `validate` of src/config.rs accepts.
use chain_lens.Base.{
  ℕ, ◌≤◌, ◌≡◌, refl, ◌⊎◌, inl, inr, ◌↔◌, [], ◌∷◌, true, ok, bytes_eq, bytes_eq_iff, arith,
  Bool-cases,
}
use chain_lens.Domain.{Bytes}
use chain_lens.Config.{
  RedactedUrl, Setting, chainlens_rpc_url, database_url, chainlens_db_max_connections,
  chainlens_db_connect_timeout_secs, chainlens_rpc_rate_limit, chainlens_rpc_timeout_secs,
  chainlens_rpc_max_retries, Config, http, https, postgres, postgresql, require_host,
  require_scheme, require_range, validate,
}

-- The value lies in the range.
abbrev pub Within : ℕ → ℕ → ℕ → Type 0
Within min max n = (min ≤ n) × (n ≤ max)

pub record IsValid (c : Config) : Type 0 where
  pub rpc_host : c.rpc_url.has_host ≡ true
  pub database_host : c.database_url.has_host ≡ true
  pub rpc_scheme : (c.rpc_url.scheme ≡ http) ⊎ (c.rpc_url.scheme ≡ https)
  pub database_scheme : (c.database_url.scheme ≡ postgres) ⊎ (c.database_url.scheme ≡ postgresql)
  pub connections : Within 1 200 c.db_max_connections
  pub connect_timeout : Within 1 120 c.db_connect_timeout_secs
  pub rate_limit : Within 1 1000 c.rpc_rate_limit
  pub timeout : Within 1 120 c.rpc_timeout_secs
  pub retries : c.rpc_max_retries ≤ 10

require_host_iff :
    (s : Setting) (url : RedactedUrl) → (require_host s url ≡ ok tt) ↔ (url.has_host ≡ true)
unfolding require_host
require_host_iff s url = (λ h. ground (arith, h), λ h. ground (arith, h))

require_range_iff :
    (s : Setting) (n min max : ℕ) → (require_range s n min max ≡ ok tt) ↔ Within min max n
unfolding require_range
require_range_iff s n min max =
    (λ h. (ground (arith, h), ground (arith, h)), λ h. ground (arith, h.0, h.1))

require_scheme_iff :
    (s : Setting) (url : RedactedUrl) (a b : Bytes)
    → (require_scheme s url (a ∷ b ∷ []) ≡ ok tt) ↔ ((url.scheme ≡ a) ⊎ (url.scheme ≡ b))
unfolding require_scheme
require_scheme_iff s url a b = (
  λ h. elim (Bool-cases (bytes_eq url.scheme a)) [
    | inl one ↦ inl ((bytes_eq_iff url.scheme a).0 one)
    | inr no_one ↦ inr ((bytes_eq_iff url.scheme b).0 (ground (arith, h)))
  ],
  λ h. elim h [
    | inl one ↦ ground (arith, (bytes_eq_iff url.scheme a).1 one)
    | inr two ↦ ground (arith, (bytes_eq_iff url.scheme b).1 two)
  ],
)

-- The settings are accepted exactly when both URLs have a host and a scheme of their kind and the
-- five numbers that are checked lie in their ranges. Nothing is asked of the others: the number of
-- workers and the depth of the queue may be zero.
pub validate_iff : (c : Config) → (validate c ≡ ok tt) ↔ IsValid c
unfolding validate
validate_iff c =
    let host_rpc = require_host_iff chainlens_rpc_url c.rpc_url in
    let host_database = require_host_iff database_url c.database_url in
    let scheme_rpc = require_scheme_iff chainlens_rpc_url c.rpc_url http https in
    let scheme_database = require_scheme_iff database_url c.database_url postgres postgresql in
    let connections = require_range_iff chainlens_db_max_connections c.db_max_connections 1 200 in
    let connect =
      require_range_iff chainlens_db_connect_timeout_secs c.db_connect_timeout_secs 1 120 in
    let rate = require_range_iff chainlens_rpc_rate_limit c.rpc_rate_limit 1 1000 in
    let timeout = require_range_iff chainlens_rpc_timeout_secs c.rpc_timeout_secs 1 120 in
    let retries = require_range_iff chainlens_rpc_max_retries c.rpc_max_retries 0 10 in
    (
      λ h. record {
        rpc_host = host_rpc.0 (ground arith);
        database_host = host_database.0 (ground arith);
        rpc_scheme = scheme_rpc.0 (ground arith);
        database_scheme = scheme_database.0 (ground arith);
        connections = connections.0 (ground arith);
        connect_timeout = connect.0 (ground arith);
        rate_limit = rate.0 (ground arith);
        timeout = timeout.0 (ground arith);
        retries = (retries.0 (ground arith)).1;
      },
      λ v.
          rw
            (
              host_rpc.1 v.rpc_host,
              host_database.1 v.database_host,
              scheme_rpc.1 v.rpc_scheme,
              scheme_database.1 v.database_scheme,
              connections.1 v.connections,
              connect.1 v.connect_timeout,
              rate.1 v.rate_limit,
              timeout.1 v.timeout,
              retries.1 (omega arith, v.retries),
            )
            refl,
    )
