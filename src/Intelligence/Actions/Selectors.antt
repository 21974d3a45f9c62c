-- ===== src/Intelligence/Actions/Selectors.antt =====
-- Which method a call names: the arms of the `match` in src/intelligence/actions.rs.
use Prim.Native.String.{String}
use chain_lens.Base.{
  Option, none, some, List, [], ◌∷◌, ◌++◌, not, ◌&&◌, if◌then◌else◌, leb, length, take, bytes_eq,
  text, is_none, is_empty, ok, ◌>>=◌,
}
use chain_lens.Domain.{Bytes}
use chain_lens.Intelligence.Actions.{
  TransactionAction, contract_call, swap, Formats, Actions, amount_at, creation, transferred_eth,
  called, transfer_call, approve_call, transfer_from_call,
}

-- A `match` on a text: the first arm whose literal it is, or the arm `_`.
unfoldable pub match_arms : Bytes → List (String × Actions) → Actions → Actions
match_arms selector_hex [] other = other
match_arms selector_hex ((literal, arm) ∷ arms) other =
    if bytes_eq selector_hex (text literal) then arm else match_arms selector_hex arms other

module _ (fmt : Formats) where
  module _ (from_addr : Bytes) (to_addr : Option Bytes) (value_str value_eth input : Bytes) where
    -- The arms that look at nothing but the selector.
    abbrev pub plain : (Option Bytes) → Bytes → List TransactionAction
    plain value description =
        called fmt from_addr to_addr value_str value_eth input swap value none description

    abbrev pub plain_call : (Option Bytes) → Bytes → List TransactionAction
    plain_call value description =
        called fmt from_addr to_addr value_str value_eth input contract_call value none description

    abbrev pub eth_transfers : List TransactionAction
    eth_transfers = transferred_eth fmt from_addr to_addr value_str value_eth input ∷ []

    -- The arm "2e1a7d4d".
    unfoldable pub withdraw_call : Actions
    unfolding amount_at called
    withdraw_call =
        if leb 36 (length input)
        then (do
          amount ← amount_at fmt input 4
          ok (
              called fmt from_addr to_addr value_str value_eth input swap none (some amount)
                (text "Unwrapped " ++ amount ++ text " WETH to ETH")))
        else ok []

    -- The arm "a0712d68".
    unfoldable pub mint_call : Actions
    unfolding amount_at called
    mint_call =
        if leb 36 (length input)
        then (do
          amount ← amount_at fmt input 4
          ok (
              called fmt from_addr to_addr value_str value_eth input contract_call none
                (some amount) (text "Supplied " ++ amount ++ text " to Compound")))
        else ok []

    -- The arm "_".
    unfoldable pub other_call : List TransactionAction
    unfolding transferred_eth called
    other_call =
        if not (bytes_eq value_str (text "0"))
        then eth_transfers
        else plain_call none (text "Called contract function")

    abbrev pub delegatecall : List TransactionAction
    delegatecall =
        record {
          action_type = contract_call;
          from = from_addr;
          to = to_addr;
          value = none;
          token_address = none;
          token_symbol = none;
          amount = none;
          spender = none;
          description = text "Delegatecall";
        }
        ∷ []

    -- The arms from "e8eda6df" on.
    unfoldable pub protocol_arms : List (String × Actions)
    unfolding mint_call called
    protocol_arms =
        (
          "e8eda6df",
          ok (plain_call (some value_eth) (text "Deposited " ++ value_eth ++ text " to Aave")),
        )
        ∷ ("a0712d68", mint_call)
        ∷ ("a6417ed6", ok (plain none (text "Swapped tokens (Curve)")))
        ∷ ("52bbbe29", ok (plain none (text "Swapped tokens (Balancer)")))
        ∷ (
          "a1903eab",
          ok (plain_call (some value_eth) (text "Staked " ++ value_eth ++ text " ETH (Lido)")),
        )
        ∷ ("0f23ca79", ok (plain_call none (text "Requested withdrawal (Lido)")))
        ∷ ("1e83409a", ok (plain_call (some value_eth) (text "Registered ENS name")))
        ∷ ("ac9650d8", ok (plain_call none (text "Executed multicall")))
        ∷ ("DCALL__", ok delegatecall)
        ∷ []

    -- The arms from "38ed1739" to "2e1a7d4d".
    unfoldable pub swap_arms : List (String × Actions)
    unfolding withdraw_call called
    swap_arms =
        ("38ed1739", ok (plain none (text "Swapped tokens (Uniswap V2)")))
        ∷ ("8803dbee", ok (plain none (text "Swapped tokens for exact output (Uniswap V2)")))
        ∷ (
          "7ff36ab5",
          ok (
              plain (some value_eth)
                (text "Swapped " ++ value_eth ++ text " ETH for tokens (Uniswap V2)")),
        )
        ∷ ("4a25d94a", ok (plain none (text "Swapped tokens for exact ETH (Uniswap V2)")))
        ∷ ("18cbafe5", ok (plain none (text "Swapped tokens for ETH (Uniswap V2)")))
        ∷ ("414bf389", ok (plain none (text "Swapped tokens (Uniswap V3)")))
        ∷ ("c04b8d59", ok (plain none (text "Swapped tokens via path (Uniswap V3)")))
        ∷ ("db3e2198", ok (plain none (text "Swapped tokens for exact output (Uniswap V3)")))
        ∷ ("12aa3caf", ok (plain none (text "Swapped tokens (1inch)")))
        ∷ (
          "d0e30db0",
          ok (plain (some value_eth) (text "Wrapped " ++ value_eth ++ text " ETH to WETH")),
        )
        ∷ ("2e1a7d4d", withdraw_call)
        ∷ []

    -- The arms for calls of tokens.
    unfoldable pub token_arms : List (String × Actions)
    unfolding transfer_call approve_call transfer_from_call
    token_arms =
        ("a9059cbb", transfer_call fmt from_addr to_addr value_str value_eth input)
        ∷ ("095ea7b3", approve_call fmt from_addr to_addr value_str value_eth input)
        ∷ ("23b872dd", transfer_from_call fmt from_addr to_addr value_str value_eth input)
        ∷ []

    -- The whole `match`.
    unfoldable pub known_call : Bytes → Actions
    unfolding match_arms token_arms swap_arms protocol_arms other_call
    known_call selector_hex =
        match_arms selector_hex token_arms (
          match_arms selector_hex swap_arms (match_arms selector_hex protocol_arms (ok other_call)))

    -- The `if` around it: a creation, a call, or a transfer with less than a selector as input.
    unfoldable pub actions_of : (to_bytes : Option Bytes) → Actions
    unfolding creation transferred_eth known_call
    actions_of to_bytes =
        if is_none to_bytes && not (is_empty input)
        then ok (creation fmt from_addr to_addr value_str value_eth input ∷ [])
        else if leb 4 (length input)
        then known_call (fmt.hex_encode (take 4 input))
        else if not (bytes_eq value_str (text "0"))
        then ok eth_transfers
        else ok []
