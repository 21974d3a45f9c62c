-- ===== src/Decode/Blocks.antt =====
-- Blocks, transactions and logs out of RPC answers: src/decode/block.rs.
use chain_lens.Base.{
  ℕ, ◌+◌, ◌-◌, ◌%◌, ◌^◌, List, [], ◌∷◌, ◌++◌, Outcome, ok, ◌>>=◌, ◌>>◌, ltb, ◌==◌, if◌then◌else◌,
  length, get_elem?, bytes_eq,
}
use chain_lens.Domain.{Block, Transaction, Log, IndexedBlock}
use chain_lens.Rpc.{LogResponse, TransactionResponse, ReceiptResponse, BlockResponse}
use chain_lens.Decode.Errors.{
  DecodeError, receipt_count_mismatch, receipt_hash_mismatch, log_index_gap, Host,
}
use chain_lens.Decode.Erc20.{check, decode_token_transfers}
use mathlib.Core.Option

abbrev pub u32_max : ℕ
u32_max = 2 ^ 32 - 1

-- `u32::try_from(n).unwrap_or(u32::MAX)`
unfoldable pub to_u32 : ℕ → ℕ
to_u32 n = if ltb u32_max n then u32_max else n

-- `u8::try_from(n).unwrap_or(0)`
unfoldable pub to_u8 : ℕ → ℕ
to_u8 n = if ltb 255 n then 0 else n

unfoldable pub decode_header : BlockResponse → Block
decode_header block = record {
  number = block.number;
  hash = block.hash;
  parent_hash = block.parent_hash;
  timestamp = block.timestamp;
  miner = block.miner;
  gas_used = block.gas_used;
  gas_limit = block.gas_limit;
  base_fee_per_gas = block.base_fee_per_gas;
  tx_count = to_u32 (length block.transactions);
}

unfoldable pub decode_single_transaction :
    ℕ → ℕ → TransactionResponse → ReceiptResponse → Transaction
decode_single_transaction block_number index tx receipt = record {
  hash = tx.hash;
  block_number = block_number;
  tx_index = to_u32 index;
  from = tx.from;
  to = tx.to;
  value = tx.value;
  nonce = tx.nonce;
  tx_type = to_u8 (Option.get_or tx.transaction_type 0);
  gas_limit = tx.gas;
  gas_price = tx.gas_price;
  max_fee_per_gas = tx.max_fee_per_gas;
  max_priority_fee_per_gas = tx.max_priority_fee_per_gas;
  input = tx.input;
  status = Option.map to_u8 receipt.status;
  gas_used = receipt.gas_used;
  effective_gas_price = receipt.effective_gas_price;
  contract_address = receipt.contract_address;
}

-- The loop over the transactions zipped with the receipts, from position `index` on.
unfoldable pub decode_transactions_from :
    ℕ → ℕ → List TransactionResponse → List ReceiptResponse → Outcome DecodeError (List Transaction)
decode_transactions_from block_number index [] receipts = ok []
decode_transactions_from block_number index (tx ∷ txs) [] = ok []
decode_transactions_from block_number index (tx ∷ txs) (receipt ∷ receipts) = do
  check (bytes_eq tx.hash receipt.transaction_hash)
      (receipt_hash_mismatch block_number index receipt.transaction_hash tx.hash)
  rest ← decode_transactions_from block_number (index + 1) txs receipts
  ok (decode_single_transaction block_number index tx receipt ∷ rest)

unfoldable pub decode_transactions :
    BlockResponse → List ReceiptResponse → Outcome DecodeError (List Transaction)
unfolding decode_transactions_from
decode_transactions block receipts = do
  check (length block.transactions == length receipts)
      (receipt_count_mismatch block.number (length block.transactions) (length receipts))
  decode_transactions_from block.number 0 block.transactions receipts

unfoldable pub decode_log : ℕ → ℕ → LogResponse → Log
decode_log block_number log_index raw_log = record {
  block_number = block_number;
  log_index = log_index;
  tx_hash = raw_log.transaction_hash;
  address = raw_log.address;
  topic0 = get_elem? raw_log.topics 0;
  topic1 = get_elem? raw_log.topics 1;
  topic2 = get_elem? raw_log.topics 2;
  topic3 = get_elem? raw_log.topics 3;
  log_data = raw_log.log_data;
}

-- The loop over the logs from `position` on; the expected index counts in a `u32`, which wraps.
unfoldable pub decode_logs_from : ℕ → ℕ → List LogResponse → Outcome DecodeError (List Log)
decode_logs_from block_number position [] = ok []
decode_logs_from block_number position (raw_log ∷ raw_logs) = do
  check (to_u32 raw_log.log_index == position % 2 ^ 32)
      (log_index_gap block_number (position % 2 ^ 32) (to_u32 raw_log.log_index) position)
  rest ← decode_logs_from block_number (position + 1) raw_logs
  ok (decode_log block_number (to_u32 raw_log.log_index) raw_log ∷ rest)

unfoldable pub decode_logs : BlockResponse → List LogResponse → Outcome DecodeError (List Log)
unfolding decode_logs_from
decode_logs block raw_logs = decode_logs_from block.number 0 raw_logs

-- `receipts.iter().flat_map(|r| r.logs.clone())`
unfoldable pub receipt_logs : List ReceiptResponse → List LogResponse
receipt_logs [] = []
receipt_logs (r ∷ receipts) = r.logs ++ receipt_logs receipts

unfoldable pub decode_block :
    Host → BlockResponse → List ReceiptResponse → Outcome DecodeError IndexedBlock
decode_block host block receipts = do
  transactions ← decode_transactions block receipts
  logs ← decode_logs block (receipt_logs receipts)
  token_transfers ← decode_token_transfers host logs
  ok (record {
    block = decode_header block;
    transactions = transactions;
    logs = logs;
    token_transfers = token_transfers;
  })
