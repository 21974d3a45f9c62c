-- ===== src/Tests/Decoding.antt =====
-- Decoding at concrete logs, blocks and receipts.
use chain_lens.Base.{
  bytes_eq, ℕ, ◌^◌, ◌≡◌, refl, some, none, List, [], ◌∷◌, ◌++◌, replicate, ok, panic, map, flat_map,
  arith, false, ◌↔◌,
}
use chain_lens.Domain.{Log, Transaction}
use chain_lens.Rpc.{LogResponse, TransactionResponse, ReceiptResponse, BlockResponse}
use chain_lens.Decode.Erc20.{decode_token_transfers}
use chain_lens.Decode.Erc20.Events.{
  Origin, Event, InRange, IsEmitted, transfer, transfer_nft, transfer_single, transfer_batch,
  log_of_event, transfers_of_event,
}
use chain_lens.Decode.Erc20.RoundTrip.{decode_token_transfers-events}
use chain_lens.Decode.Erc20.Safety.{batch_log, decode_token_transfers_panic}
use chain_lens.Decode.Blocks.{
  decode_transactions, decode_logs, decode_single_transaction, to_u32, to_u8, decode_log,
}
use chain_lens.Decode.Laws.{Joined, decode_transactions_iff}
use chain_lens.Tests.Data.{to_be_bytes, host, host-HostLaws, chain}

abbrev origin : Origin
origin = record {
  block_number = 7;
  log_index = 3;
  tx_hash = replicate 32 5;
  address = replicate 20 9;
}

abbrev alice : List ℕ
alice = replicate 20 1

abbrev bob : List ℕ
bob = replicate 20 2

abbrev events : List Event
events =
    transfer origin alice bob 1000
    ∷ transfer_nft origin bob alice 77
    ∷ transfer_single origin alice alice bob 5 6
    ∷ transfer_batch origin alice alice bob ((1, 10) ∷ (2, 20) ∷ [])
    ∷ []

decode_token_transfers-events_example :
    decode_token_transfers host (map (log_of_event to_be_bytes) events)
    ≡ ok (flat_map (transfers_of_event to_be_bytes) events)
decode_token_transfers-events_example =
    let pairs : InRange ((1, 10) ∷ (2, 20) ∷ []) =
      (omega arith, omega arith, (omega arith, omega arith, tt)) in
    let batch : IsEmitted host (transfer_batch origin alice alice bob ((1, 10) ∷ (2, 20) ∷ [])) =
      ((refl, refl), pairs, omega arith, omega arith) in
    decode_token_transfers-events host to_be_bytes host-HostLaws events (
      ((refl, refl), omega arith),
      (((refl, refl), omega arith), (((refl, refl), omega arith, omega arith), (batch, tt))),
    )

nothing : decode_token_transfers host [] ≡ ok []
unfolding decode_token_transfers
nothing = refl

decode_token_transfers_panic_example :
    decode_token_transfers host
      ([] ++ batch_log origin alice alice bob (to_be_bytes (2 ^ 64) ++ replicate 96 0) ∷ [])
    ≡ panic
decode_token_transfers_panic_example =
    decode_token_transfers_panic host to_be_bytes host-HostLaws [] [] [] origin alice alice bob
      (2 ^ 64) (replicate 96 0) nothing refl refl (omega arith) (omega arith) (omega arith)

abbrev raw_log : ℕ → LogResponse
raw_log i = record {
  address = alice;
  topics = [];
  log_data = [];
  block_number = 7;
  transaction_hash = 50 ∷ [];
  transaction_index = 0;
  block_hash = 8 ∷ [];
  log_index = i;
  removed = false;
}

abbrev raw_transaction : TransactionResponse
raw_transaction = record {
  hash = 50 ∷ [];
  transaction_index = 0;
  from = alice;
  to = some bob;
  value = 12;
  nonce = 1;
  gas = 21000;
  gas_price = some 7;
  input = [];
  transaction_type = some 2;
  max_fee_per_gas = none;
  max_priority_fee_per_gas = none;
  chain_id = some 1;
  v = none;
  r = none;
  s = none;
}

abbrev receipt : ReceiptResponse
receipt = record {
  transaction_hash = 50 ∷ [];
  transaction_index = 0;
  block_hash = 8 ∷ [];
  block_number = 7;
  from = alice;
  to = some bob;
  cumulative_gas_used = 21000;
  gas_used = 21000;
  contract_address = none;
  status = some 1;
  logs = raw_log 0 ∷ raw_log 1 ∷ [];
  transaction_type = some 2;
  effective_gas_price = some 7;
}

abbrev block : BlockResponse
block = record (chain 7) { transactions = raw_transaction ∷ [] }

abbrev decoded : Transaction
decoded = record {
  hash = 50 ∷ [];
  block_number = 7;
  tx_index = 0;
  from = alice;
  to = some bob;
  value = 12;
  nonce = 1;
  tx_type = 2;
  gas_limit = 21000;
  gas_price = some 7;
  max_fee_per_gas = none;
  max_priority_fee_per_gas = none;
  input = [];
  status = some 1;
  gas_used = 21000;
  effective_gas_price = some 7;
  contract_address = none;
}

decode_transactions_iff_example :
    (decode_transactions block (receipt ∷ []) ≡ ok (decoded ∷ []))
    ↔ Joined 7 0 (raw_transaction ∷ []) (receipt ∷ []) (decoded ∷ [])
decode_transactions_iff_example = decode_transactions_iff block (receipt ∷ []) (decoded ∷ [])

decode_transactions_runs : decode_transactions block (receipt ∷ []) ≡ ok (decoded ∷ [])
unfolding decode_transactions bytes_eq decode_single_transaction to_u32 to_u8
decode_transactions_runs = refl

abbrev decoded_log : ℕ → Log
decoded_log i = record {
  block_number = 7;
  log_index = i;
  tx_hash = 50 ∷ [];
  address = alice;
  topic0 = none;
  topic1 = none;
  topic2 = none;
  topic3 = none;
  log_data = [];
}

decode_logs_run :
    decode_logs block (raw_log 0 ∷ raw_log 1 ∷ []) ≡ ok (decoded_log 0 ∷ decoded_log 1 ∷ [])
unfolding decode_logs to_u32 decode_log
decode_logs_run = refl
