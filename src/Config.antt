-- ===== src/Config.antt =====
-- The settings and their validation: src/config.rs. A URL is what the validation asks of it: its
-- scheme and whether it has a host; parsing the settings is not part of the model.
pub mod Laws
use chain_lens.Base.{
  ℕ, List, [], ◌∷◌, Bool, true, false, ◌&&◌, ◌||◌, if◌then◌else◌, ltb, leb, Outcome, ok, err, ◌>>◌,
  ◌>>=◌, bytes_eq, any,
}
use chain_lens.Domain.{Bytes}

pub record RedactedUrl : Type 0 where
  pub scheme : Bytes
  pub has_host : Bool

pub data LogFormat : Type 0 where
  text json : LogFormat

pub record Config : Type 0 where
  pub rpc_url : RedactedUrl
  pub database_url : RedactedUrl
  pub db_max_connections : ℕ
  pub db_connect_timeout_secs : ℕ
  pub log_format : LogFormat
  pub rpc_rate_limit : ℕ
  pub rpc_timeout_secs : ℕ
  pub rpc_max_retries : ℕ
  pub backfill_from : ℕ
  pub head_poll_secs : ℕ
  pub max_reorg_depth : ℕ
  pub worker_count : ℕ
  pub fetch_queue_depth : ℕ

-- The names of the settings that are checked.
pub data Setting : Type 0 where
  chainlens_rpc_url database_url chainlens_db_max_connections : Setting
  chainlens_db_connect_timeout_secs chainlens_rpc_rate_limit : Setting
  chainlens_rpc_timeout_secs chainlens_rpc_max_retries : Setting

pub data ConfigError : Type 0 where
  missing_host : Setting → ConfigError
  scheme : Setting → (actual : Bytes) (expected : List Bytes) → ConfigError
  range : Setting → (actual min max : ℕ) → ConfigError

-- The bytes of "http", "https", "postgres" and "postgresql".
abbrev pub http : Bytes
http = 104 ∷ 116 ∷ 116 ∷ 112 ∷ []

abbrev pub https : Bytes
https = 104 ∷ 116 ∷ 116 ∷ 112 ∷ 115 ∷ []

abbrev pub postgres : Bytes
postgres = 112 ∷ 111 ∷ 115 ∷ 116 ∷ 103 ∷ 114 ∷ 101 ∷ 115 ∷ []

abbrev pub postgresql : Bytes
postgresql = 112 ∷ 111 ∷ 115 ∷ 116 ∷ 103 ∷ 114 ∷ 101 ∷ 115 ∷ 113 ∷ 108 ∷ []

unfoldable pub require_host : Setting → RedactedUrl → Outcome ConfigError (Unit {0})
require_host setting url = if url.has_host then ok tt else err (missing_host setting)

unfoldable pub require_scheme : Setting → RedactedUrl → List Bytes → Outcome ConfigError (Unit {0})
require_scheme setting url allowed =
    if any (bytes_eq url.scheme) allowed then ok tt else err (scheme setting url.scheme allowed)

unfoldable pub require_range : Setting → (actual min max : ℕ) → Outcome ConfigError (Unit {0})
require_range setting actual min max =
    if leb min actual && leb actual max then ok tt else err (range setting actual min max)

unfoldable pub validate : Config → Outcome ConfigError (Unit {0})
validate c = do
  require_host chainlens_rpc_url c.rpc_url
  require_host database_url c.database_url
  require_scheme chainlens_rpc_url c.rpc_url (http ∷ https ∷ [])
  require_scheme database_url c.database_url (postgres ∷ postgresql ∷ [])
  require_range chainlens_db_max_connections c.db_max_connections 1 200
  require_range chainlens_db_connect_timeout_secs c.db_connect_timeout_secs 1 120
  require_range chainlens_rpc_rate_limit c.rpc_rate_limit 1 1000
  require_range chainlens_rpc_timeout_secs c.rpc_timeout_secs 1 120
  require_range chainlens_rpc_max_retries c.rpc_max_retries 0 10
