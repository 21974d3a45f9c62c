-- ===== src/Intelligence/Actions/Explain.antt =====
-- `explain_transaction` of src/intelligence/actions.rs around its `match`: the fee, the contracts
-- and the summary. What the two queries return are parameters. Products of `u128` wrap, as in the
-- release profile.
use mathlib.Core.Option
use chain_lens.Base.{
  ℕ, zero, suc, ◌*◌, ◌%◌, ◌^◌, Option, none, some, List, [], ◌∷◌, ◌++◌, map, if◌then◌else◌, any,
  bytes_eq, text, unwrap_or, trim_0x, ℤ, pos, unsigned_abs, Outcome, ok, ◌>>=◌, ok_or,
}
use chain_lens.Domain.{Bytes}
use chain_lens.Decode.Errors.{slice}
use chain_lens.Intelligence.Actions.{
  TransactionAction, eth_transfer, erc20_transfer, erc20_approval, erc721_transfer,
  erc1155_transfer, contract_creation, contract_call, swap, unknown, Formats, ExplainError,
  row_not_found, show_address,
}
use chain_lens.Intelligence.Actions.Selectors.{actions_of}

pub record TransactionExplanation : Type 0 where
  pub tx_hash : Bytes
  pub block_number : ℤ
  pub timestamp : Bytes
  pub from : Bytes
  pub to : Option Bytes
  pub value_wei : Bytes
  pub value_eth : Bytes
  pub gas_used : ℤ
  pub gas_price : Option Bytes
  pub effective_gas_price : Option Bytes
  pub tx_fee : Bytes
  pub status : Bytes
  pub actions : List TransactionAction
  pub contracts_involved : List Bytes
  pub summary : Bytes

-- A row of the query for the transaction; its amounts are decimal texts.
pub record TxRow : Type 0 where
  pub block_number : ℤ
  pub from_addr : Bytes
  pub to_addr : Option Bytes
  pub value : Bytes
  pub gas_used : ℤ
  pub gas_price : Option Bytes
  pub effective_gas_price : Option Bytes
  pub status : Option ℤ
  pub input : Bytes
  pub timestamp : Bytes

abbrev pub or_else : {A : Type 0} → Option A → Option A → Option A
or_else none b = b
or_else (some a) b = some a

unfoldable pub status_text : Option ℤ → Bytes
status_text (some (pos zero)) = text "failed"
status_text (some (pos (suc zero))) = text "success"
status_text _ = text "unknown"

-- `contracts_involved` after the loop over the rows of logs.
unfoldable pub involve : List Bytes → List Bytes → List Bytes
involve contracts_involved [] = contracts_involved
involve contracts_involved (addr ∷ rows) =
    involve
      (if any (bytes_eq addr) contracts_involved
        then contracts_involved
        else contracts_involved ++ addr ∷ [])
      rows

-- `&s[..10]`
unfoldable pub short : Bytes → Outcome ExplainError Bytes
short s = slice s 0 10

-- `to.as_ref().map(|t| &t[..10]).unwrap_or(default)`
unfoldable pub short_or : Bytes → Option Bytes → Outcome ExplainError Bytes
unfolding short
short_or default none = ok default
short_or default (some t) = short t

unfoldable pub build_summary :
    List TransactionAction → Bytes → Option Bytes → Bytes → Outcome ExplainError Bytes
unfolding short short_or
build_summary [] from to value_eth = do sender ← short from; ok (text "Transaction from " ++ sender)
build_summary (primary ∷ _) from to value_eth = elim primary.action_type [
  | eth_transfer ↦ do
    sender ← short from
    receiver ← short_or (text "contract creation") to
    ok (text "Transferred " ++ value_eth ++ text " ETH from " ++ sender ++ text " to " ++ receiver)
  | erc20_transfer ↦ do
    sender ← short from
    receiver ← short_or (text "unknown") primary.to
    ok (
        text "Transferred "
        ++ unwrap_or primary.amount (text "unknown")
        ++ text " tokens from "
        ++ sender
        ++ text " to "
        ++ receiver)
  | erc20_approval ↦ do
    spender ← short_or (text "unknown") primary.spender
    sender ← short from
    ok (text "Approved " ++ spender ++ text " to spend tokens from " ++ sender)
  | erc721_transfer ↦ do
    sender ← short from
    receiver ← short_or (text "unknown") primary.to
    ok (
        text "Transferred NFT #"
        ++ unwrap_or primary.amount (text "unknown")
        ++ text " from "
        ++ sender
        ++ text " to "
        ++ receiver)
  | contract_creation ↦ do sender ← short from; ok (text "Deployed new contract from " ++ sender)
  | contract_call ↦ do
    contract ← short_or (text "unknown") to
    ok (text "Called contract at " ++ contract)
  | erc1155_transfer ↦ do sender ← short from; ok (text "Transaction from " ++ sender)
  | swap ↦ do sender ← short from; ok (text "Transaction from " ++ sender)
  | unknown ↦ do sender ← short from; ok (text "Transaction from " ++ sender)
]

module _ (fmt : Formats) where
  unfoldable pub wei_to_eth : Bytes → Bytes
  wei_to_eth wei = fmt.fixed 6 (unwrap_or (fmt.parse_u128 wei) 0) (10 ^ 18)

  unfoldable pub calculate_tx_fee : (gas_used : ℤ) → (gas_price : Option Bytes) → Bytes
  calculate_tx_fee gas_used gas_price =
      let price : ℕ = elim gas_price [ none ↦ 0 | some g ↦ unwrap_or (fmt.parse_u128 g) 0 ] in
      fmt.fixed 6 ((unsigned_abs gas_used * price) % 2 ^ 128) (10 ^ 18)

  -- The record at the end of `explain_transaction`.
  unfoldable pub explanation :
      Bytes → TxRow → List TransactionAction → List Bytes → Bytes → TransactionExplanation
  unfolding show_address wei_to_eth calculate_tx_fee status_text involve
  explanation tx_hash tx actions log_addresses summary = record {
    tx_hash = tx_hash;
    block_number = tx.block_number;
    timestamp = tx.timestamp;
    from = show_address fmt tx.from_addr;
    to = Option.map (show_address fmt) tx.to_addr;
    value_wei = tx.value;
    value_eth = wei_to_eth tx.value;
    gas_used = tx.gas_used;
    gas_price = tx.gas_price;
    effective_gas_price = tx.effective_gas_price;
    tx_fee = calculate_tx_fee tx.gas_used (or_else tx.effective_gas_price tx.gas_price);
    status = status_text tx.status;
    actions = actions;
    contracts_involved = involve [] (map (show_address fmt) log_addresses);
    summary = summary;
  }

  -- `find_tx` and `log_addresses` are the queries; a failed one ends the call and is left out.
  unfoldable pub explain_transaction :
      (find_tx : Bytes → Option TxRow)
      → (log_addresses : ℤ → Bytes → List Bytes) → (tx_hash : Bytes)
      → Outcome ExplainError TransactionExplanation
  unfolding show_address wei_to_eth actions_of build_summary explanation
  explain_transaction find_tx log_addresses tx_hash = do
    hash_bytes ← ok_or (fmt.hex_decode (trim_0x tx_hash)) row_not_found
    tx ← ok_or (find_tx hash_bytes) row_not_found
    let from_addr = show_address fmt tx.from_addr
    let to_addr = Option.map (show_address fmt) tx.to_addr
    let value_eth = wei_to_eth tx.value
    actions ← actions_of fmt from_addr to_addr tx.value value_eth tx.input tx.to_addr
    summary ← build_summary actions from_addr to_addr value_eth
    ok (explanation tx_hash tx actions (log_addresses tx.block_number hash_bytes) summary)
