-- ===== src/Intelligence/Events.antt =====
-- The names of known events: src/intelligence/events.rs. The hash function and the hexadecimal
-- notation are parameters.
pub mod Laws
use chain_lens.Base.{◌≡◌, ◌↔◌, Option, none, some, List, [], ◌∷◌, ◌++◌, map, take, text}
use mathlib.Core.Option
use chain_lens.Domain.{Bytes, B256}
use chain_lens.Intelligence.Tables.{get, inserted}

pub record EventSignature : Type 0 where
  pub name : Bytes
  pub description : Bytes

-- The entries of `KNOWN_EVENTS` in the order in which they are inserted, before hashing; first those
-- of tokens and exchanges.
abbrev pub exchange_events : List (Bytes × EventSignature)
exchange_events =
    (
      text "Transfer(address,address,uint256)",
      record { name = text "Transfer"; description = text "ERC-20/721 token transfer" },
    )
    ∷ (
      text "Approval(address,address,uint256)",
      record { name = text "Approval"; description = text "ERC-20/721 token approval" },
    )
    ∷ (
      text "TransferSingle(address,address,address,uint256,uint256)",
      record { name = text "TransferSingle"; description = text "ERC-1155 single token transfer" },
    )
    ∷ (
      text "TransferBatch(address,address,address,uint256[],uint256[])",
      record { name = text "TransferBatch"; description = text "ERC-1155 batch token transfer" },
    )
    ∷ (
      text "ApprovalForAll(address,address,bool)",
      record { name = text "ApprovalForAll"; description = text "ERC-721/1155 operator approval" },
    )
    ∷ (
      text "Swap(address,uint256,uint256,uint256,uint256,address)",
      record { name = text "Swap"; description = text "Uniswap V2 swap" },
    )
    ∷ (
      text "Swap(address,address,int256,int256,uint160,uint128,int24,address)",
      record { name = text "Swap"; description = text "Uniswap V3 swap" },
    )
    ∷ (text "Mint(address,uint256)", record { name = text "Mint"; description = text "Token mint" })
    ∷ (text "Burn(address,uint256)", record { name = text "Burn"; description = text "Token burn" })
    ∷ (
      text "Deposit(address,uint256)",
      record { name = text "Deposit"; description = text "WETH deposit" },
    )
    ∷ (
      text "Withdrawal(address,uint256)",
      record { name = text "Withdrawal"; description = text "WETH withdrawal" },
    )
    ∷ (
      text "Sync(uint112,uint112)",
      record { name = text "Sync"; description = text "Uniswap V2 reserve sync" },
    )
    ∷ (
      text "PairCreated(address,address,address,uint256)",
      record { name = text "PairCreated"; description = text "Uniswap V2 pair created" },
    )
    ∷ []

abbrev pub protocol_events : List (Bytes × EventSignature)
protocol_events =
    (
      text "PoolCreated(address,address,uint24,int24,address)",
      record { name = text "PoolCreated"; description = text "Uniswap V3 pool created" },
    )
    ∷ (
      text "Borrow(address,address,uint256,uint256,uint256,address)",
      record { name = text "Borrow"; description = text "Aave/Compound borrow" },
    )
    ∷ (
      text "Repay(address,address,uint256,address)",
      record { name = text "Repay"; description = text "Aave/Compound repay" },
    )
    ∷ (
      text "Liquidation(address,address,address,uint256,uint256,address)",
      record { name = text "Liquidation"; description = text "Liquidation event" },
    )
    ∷ (
      text "Deposit(address,address,uint256,uint256)",
      record { name = text "Deposit"; description = text "Aave deposit" },
    )
    ∷ (
      text "Withdraw(address,address,uint256,uint256)",
      record { name = text "Withdraw"; description = text "Aave withdraw" },
    )
    ∷ (
      text "DelegateChanged(address,address,address)",
      record { name = text "DelegateChanged"; description = text "Governance delegation change" },
    )
    ∷ (
      text "VoteCast(address,uint256,uint8,uint256,string)",
      record { name = text "VoteCast"; description = text "Governance vote" },
    )
    ∷ (
      text "OwnershipTransferred(address,address)",
      record { name = text "OwnershipTransferred"; description = text "Ownership transfer" },
    )
    ∷ (
      text "Paused(address)",
      record { name = text "Paused"; description = text "Contract paused" },
    )
    ∷ (
      text "Unpaused(address)",
      record { name = text "Unpaused"; description = text "Contract unpaused" },
    )
    ∷ (
      text "Upgraded(address)",
      record { name = text "Upgraded"; description = text "Proxy upgraded" },
    )
    ∷ (
      text "Initialized(uint8)",
      record { name = text "Initialized"; description = text "Contract initialized" },
    )
    ∷ []

unfoldable pub event_signatures : List (Bytes × EventSignature)
unfolding text
event_signatures = exchange_events ++ protocol_events

module _ (keccak256 : Bytes → B256) (hex_encode : Bytes → Bytes) where
  unfoldable pub known_events : List (B256 × EventSignature)
  unfolding event_signatures inserted
  known_events = inserted (map (λ e. (keccak256 e.0, e.1)) event_signatures) []

  unfoldable pub decode_event_signature : B256 → Option EventSignature
  unfolding known_events get
  decode_event_signature topic0 = get topic0 known_events

  unfoldable pub decode_event_name : B256 → Bytes
  unfolding decode_event_signature
  decode_event_name topic0 = elim (decode_event_signature topic0) [
    | some s ↦ s.name
    | none ↦ text "0x" ++ hex_encode (take 4 topic0)
  ]

  unfoldable pub decode_event_description : B256 → Bytes
  unfolding decode_event_signature
  decode_event_description topic0 = elim (decode_event_signature topic0) [
    | some s ↦ s.description
    | none ↦ text "Unknown event"
  ]
