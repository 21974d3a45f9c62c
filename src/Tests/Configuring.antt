-- ===== src/Tests/Configuring.antt =====
-- The validation at concrete settings.
use chain_lens.Base.{◌≡◌, ◌↔◌, true, ok}
use chain_lens.Config.{Config, text, http, postgres, validate}
use chain_lens.Config.Laws.{IsValid, validate_iff}

abbrev defaults : Config
defaults = record {
  rpc_url = record { scheme = http; has_host = true };
  database_url = record { scheme = postgres; has_host = true };
  db_max_connections = 5;
  db_connect_timeout_secs = 5;
  log_format = text;
  rpc_rate_limit = 10;
  rpc_timeout_secs = 30;
  rpc_max_retries = 3;
  backfill_from = 0;
  head_poll_secs = 4;
  max_reorg_depth = 128;
  worker_count = 4;
  fetch_queue_depth = 32;
}

validate_iff_example : (validate defaults ≡ ok tt) ↔ IsValid defaults
validate_iff_example = validate_iff defaults
