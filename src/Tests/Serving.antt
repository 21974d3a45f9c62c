-- ===== src/Tests/Serving.antt =====
-- What handlers answer and the task does, at a concrete server.
use chain_lens.Base.{ℕ, ◌≡◌, ◌≢◌, refl, some, none, [], ◌∷◌, false, pos, inl, any, ok, err}
use chain_lens.Intelligence.Actions.{row_not_found}
use chain_lens.Intelligence.Background.{Analyses, block_committed, process}
use chain_lens.Intelligence.Mev.Analysis.{BlockAnalytics, StoredBlock, MevQueries, analyze_block}
use chain_lens.Intelligence.Mev.Block.{process_after_stored}
use chain_lens.Store.Db.{same_transaction}
use chain_lens.Store.Postgres.{transaction_row}
use chain_lens.Api.{Hex}
use chain_lens.Api.Reads.{BlockResponse, Notations, get_block, get_transaction}
use chain_lens.Api.Served.{answer, get_block_never_answers, get_transaction_after_commit}
use chain_lens.Tests.Analysing.{whole}
use chain_lens.Tests.Storing.{tx, indexed, stored_db, indexed_commits, fresh_db-IsConsistent}
use chain_lens.Tests.Data.{fresh_db}
use chain_lens.Tests.Persisting.{server, coding}

abbrev seven : StoredBlock
seven = record {
  timestamp = [];
  tx_count = pos 1;
  gas_used = pos 21000;
  gas_limit = pos 30000000;
  base_fee = none;
}

abbrev mev_queries : MevQueries
mev_queries = record {
  block = λ n. ok (some seven);
  priority_fees = λ n. ok (record { total = []; avg = []; max = [] });
  transactions = λ n. ok (tx ∷ []);
  same_addr_txs = λ n. ok [];
  avg_fee = λ n. ok [];
  high_fee_txs = λ n threshold. ok [];
  repeated = λ n. ok [];
  large_value = λ n. ok [];
}

abbrev block_analyses : Analyses ℕ ℕ ℕ (BlockAnalytics ℕ) ℕ
block_analyses = record {
  tx_hashes = λ n. ok [];
  addresses = λ n. ok [];
  contracts = λ n. ok [];
  explain_transaction = λ h. err row_not_found;
  analyze_address = λ a. err row_not_found;
  analyze_contract = λ a. err row_not_found;
  detect_anomalies = λ n. err row_not_found;
  analyze_block = λ n. analyze_block whole mev_queries n server;
  mev_events = λ a. [];
}

process_after_stored_example :
    process coding block_analyses (block_committed 7 ∷ block_committed 8 ∷ [])
    ≡ process coding block_analyses (block_committed 7 ∷ [])
process_after_stored_example =
    process_after_stored whole mev_queries server coding block_analyses (λ n. refl) refl 7 seven []
      [] [] refl refl refl refl [] (block_committed 8 ∷ [])

abbrev plain_hex : Hex
plain_hex = record { encode = λ b. b; decode = λ b. some b }

abbrev notes : Notations
notes = record {
  parse_i64 = λ s. some (pos 7);
  show_time = λ t. t ∷ [];
  show_numeric = λ n. n ∷ [];
}

-- The answer that the request for the stored block asks for.
abbrev stored_answer : BlockResponse
stored_answer = record {
  number = 7;
  hash = 8 ∷ [];
  parent_hash = 7 ∷ [];
  timestamp = 84 ∷ [];
  miner = [];
  gas_used = 21000;
  gas_limit = 30000000;
  base_fee = none;
  tx_count = 1;
}

get_block_never_answers_example :
    get_block server plain_hex notes stored_db (8 ∷ []) ≢ ok stored_answer
get_block_never_answers_example =
    get_block_never_answers server plain_hex notes refl stored_db (8 ∷ []) stored_answer

tx_fresh : any (same_transaction (transaction_row tx)) fresh_db.transactions ≡ false
unfolding same_transaction
tx_fresh = refl

get_transaction_after_commit_example :
    get_transaction server plain_hex notes stored_db tx.hash
    ≡ ok (answer plain_hex notes (transaction_row tx))
get_transaction_after_commit_example =
    get_transaction_after_commit server plain_hex notes (λ b. refl) refl refl refl refl refl indexed
      fresh_db stored_db fresh_db-IsConsistent indexed_commits (refl, tt) tx (inl refl) tx_fresh
