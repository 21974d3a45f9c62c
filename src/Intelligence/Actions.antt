-- ===== src/Intelligence/Actions.antt =====
-- What a transaction did, from its input: the `match` of `explain_transaction` in
-- src/intelligence/actions.rs. The hexadecimal and decimal notations are parameters.
pub mod Selectors
pub mod Explain
pub mod Returns
pub mod Arms
pub mod Words
pub mod Summary
pub mod Panics
use Prim.Native.String.{String}
use chain_lens.Base.{
  ℕ, ◌+◌, Option, none, some, List, [], ◌∷◌, ◌++◌, if◌then◌else◌, leb, length, text, Outcome, ok,
  ◌>>=◌,
}
use chain_lens.Domain.{Bytes}
use chain_lens.Decode.Errors.{slice}

pub data ActionType : Type 0 where
  eth_transfer erc20_transfer erc20_approval erc721_transfer erc1155_transfer : ActionType
  contract_creation contract_call swap unknown : ActionType

pub record TransactionAction : Type 0 where
  pub action_type : ActionType
  pub from : Bytes
  pub to : Option Bytes
  pub value : Option Bytes
  pub token_address : Option Bytes
  pub token_symbol : Option Bytes
  pub amount : Option Bytes
  pub spender : Option Bytes
  pub description : Bytes

-- The functions of the crates `hex` and `alloy`, `str::parse::<u128>`, and the notation of an
-- `f64`: `fixed d n m` is `n as f64 / m` with `d` decimals.
pub record Formats : Type 0 where
  pub hex_encode : Bytes → Bytes
  pub hex_decode : Bytes → Option Bytes
  pub from_be_slice : Bytes → ℕ
  pub show_u256 : ℕ → Bytes
  pub parse_u128 : Bytes → Option ℕ
  pub fixed : (decimals value unit : ℕ) → Bytes

-- `sqlx::Error::RowNotFound`.
pub data ExplainError : Type 0 where
  row_not_found : ExplainError

abbrev pub Actions : Type 0
Actions = Outcome ExplainError (List TransactionAction)

module _ (fmt : Formats) where
  unfoldable pub show_address : Bytes → Bytes
  show_address bytes = text "0x" ++ fmt.hex_encode bytes

  -- The last 20 bytes of the 32 bytes at `offset`.
  unfoldable pub address_at : Bytes → (offset : ℕ) → Outcome ExplainError Bytes
  unfolding show_address
  address_at input offset = do
    word ← slice input offset (offset + 32)
    bytes ← slice word 12 (length word)
    ok (show_address bytes)

  unfoldable pub amount_at : Bytes → (offset : ℕ) → Outcome ExplainError Bytes
  amount_at input offset = do
    word ← slice input offset (offset + 32)
    ok (fmt.show_u256 (fmt.from_be_slice word))

  -- The names of `explain_transaction` that its `match` reads.
  module _ (from_addr : Bytes) (to_addr : Option Bytes) (value_str value_eth input : Bytes) where
    unfoldable pub creation : TransactionAction
    creation = record {
      action_type = contract_creation;
      from = from_addr;
      to = none;
      value = some value_eth;
      token_address = none;
      token_symbol = none;
      amount = none;
      spender = none;
      description = text "Deployed a new contract";
    }

    unfoldable pub transferred_eth : TransactionAction
    transferred_eth = record {
      action_type = eth_transfer;
      from = from_addr;
      to = to_addr;
      value = some value_eth;
      token_address = none;
      token_symbol = none;
      amount = none;
      spender = none;
      description = text "Transferred " ++ value_eth ++ text " ETH";
    }

    -- The actions that the arms for known methods share: between the sender and the contract.
    unfoldable pub called :
        ActionType → (value amount : Option Bytes) → (description : Bytes) → List TransactionAction
    called action_type value amount description =
        record {
          action_type = action_type;
          from = from_addr;
          to = to_addr;
          value = value;
          token_address = to_addr;
          token_symbol = none;
          amount = amount;
          spender = none;
          description = description;
        }
        ∷ []

    abbrev pub transferred_tokens : Bytes → Bytes → TransactionAction
    transferred_tokens to amount = record {
      action_type = erc20_transfer;
      from = from_addr;
      to = some to;
      value = none;
      token_address = to_addr;
      token_symbol = none;
      amount = some amount;
      spender = none;
      description = text "Transferred " ++ amount ++ text " tokens";
    }

    -- The arm "a9059cbb".
    unfoldable pub transfer_call : Actions
    unfolding address_at amount_at
    transfer_call =
        if leb 68 (length input)
        then (do
          to ← address_at input 16
          amount ← amount_at input 36
          ok (transferred_tokens to amount ∷ []))
        else ok []

    abbrev pub approved_spending : Bytes → TransactionAction
    approved_spending spender = record {
      action_type = erc20_approval;
      from = from_addr;
      to = to_addr;
      value = none;
      token_address = to_addr;
      token_symbol = none;
      amount = none;
      spender = some spender;
      description = text "Approved token spending";
    }

    -- The arm "095ea7b3".
    unfoldable pub approve_call : Actions
    unfolding address_at
    approve_call =
        if leb 68 (length input)
        then (do spender ← address_at input 16; ok (approved_spending spender ∷ []))
        else ok []

    abbrev pub transferred_nft : Bytes → Bytes → Bytes → TransactionAction
    transferred_nft from to token_id = record {
      action_type = erc721_transfer;
      from = from;
      to = some to;
      value = none;
      token_address = to_addr;
      token_symbol = none;
      amount = some token_id;
      spender = none;
      description = text "Transferred NFT #" ++ token_id;
    }

    -- The arm "23b872dd".
    unfoldable pub transfer_from_call : Actions
    unfolding address_at amount_at
    transfer_from_call =
        if leb 100 (length input)
        then (do
          from ← address_at input 16
          to ← address_at input 48
          token_id ← amount_at input 80
          ok (transferred_nft from to token_id ∷ []))
        else ok []
