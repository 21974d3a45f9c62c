-- ===== src/Decode/Erc20/Events.antt =====
-- The token events of the ERC standards and the logs that carry them, as the specification that
-- src/decode/erc20.rs is to read: what a contract that follows the standard emits.
use chain_lens.Base.{
  ℕ, ◌+◌, ◌*◌, ◌^◌, ◌<◌, ◌≤◌, ◌≡◌, none, some, List, [], ◌∷◌, ◌++◌, length, map, false,
}
use chain_lens.Domain.{
  Bytes, B256, Address, U256, Log, erc20, erc721, erc1155, TokenTransfer, transfer_topic,
  erc1155_transfer_single_topic, erc1155_transfer_batch_topic,
}
use chain_lens.Decode.Errors.{Host}
use chain_lens.Decode.Erc20.{transfer_of, topic_is}
use chain_lens.Decode.Erc20.Slices.{address_topic}

-- Where a log stands and which contract emitted it.
pub record Origin : Type 0 where
  pub block_number : ℕ
  pub log_index : ℕ
  pub tx_hash : B256
  pub address : Address

-- The pair is a token's id and its amount. `unrelated` is a log of any other event.
pub data Event : Type 0 where
  transfer : Origin → (from to : Address) (value : U256) → Event
  transfer_nft : Origin → (from to : Address) (token_id : U256) → Event
  transfer_single : Origin → (operator from to : Address) (token_id value : U256) → Event
  transfer_batch : Origin → (operator from to : Address) → List (U256 × U256) → Event
  unrelated : Log → Event

abbrev pub log_of : Origin → B256 → B256 → B256 → (fourth : List B256) → Bytes → Log
log_of o t0 t1 t2 fourth bytes = record {
  block_number = o.block_number;
  log_index = o.log_index;
  tx_hash = o.tx_hash;
  address = o.address;
  topic0 = some t0;
  topic1 = some t1;
  topic2 = some t2;
  topic3 = elim fourth [ [] ↦ none | t ∷ _ ↦ some t ];
  log_data = bytes;
}

module _ (to_be_bytes : U256 → Bytes) where
  unfoldable pub words : List U256 → Bytes
  words [] = []
  words (v ∷ vs) = to_be_bytes v ++ words vs

  -- The ABI encoding of two dynamic arrays: their offsets, then each with its length.
  unfoldable pub batch_data : List U256 → List U256 → Bytes
  batch_data ids values =
      to_be_bytes 64
      ++ (to_be_bytes (96 + 32 * length ids)
          ++ (to_be_bytes (length ids)
              ++ (words ids ++ (to_be_bytes (length values) ++ words values))))

  unfoldable pub log_of_event : Event → Log
  log_of_event (transfer o from to value) =
      log_of o transfer_topic (address_topic from) (address_topic to) [] (to_be_bytes value)
  log_of_event (transfer_nft o from to token_id) =
      log_of o transfer_topic (address_topic from) (address_topic to) (to_be_bytes token_id ∷ []) []
  log_of_event (transfer_single o operator from to token_id value) =
      log_of o erc1155_transfer_single_topic (address_topic operator) (address_topic from)
        (address_topic to ∷ []) (to_be_bytes token_id ++ to_be_bytes value)
  log_of_event (transfer_batch o operator from to items) =
      log_of o erc1155_transfer_batch_topic (address_topic operator) (address_topic from)
        (address_topic to ∷ []) (batch_data (map (λ p. p.0) items) (map (λ p. p.1) items))
  log_of_event (unrelated log) = log

  -- The transfers that an event stands for.
  unfoldable pub transfers_of_event : Event → List TokenTransfer
  unfolding log_of_event
  transfers_of_event (transfer o from to value) =
      transfer_of (log_of_event (transfer o from to value)) from to value 0 erc20 ∷ []
  transfers_of_event (transfer_nft o from to token_id) =
      transfer_of (log_of_event (transfer_nft o from to token_id)) from to 0 token_id erc721 ∷ []
  transfers_of_event (transfer_single o operator from to token_id value) =
      transfer_of (log_of_event (transfer_single o operator from to token_id value)) from to value
        token_id erc1155
      ∷ []
  transfers_of_event (transfer_batch o operator from to items) =
      map
        (λ p.
          transfer_of (log_of_event (transfer_batch o operator from to items)) from to p.1 p.0
            erc1155)
        items
  transfers_of_event (unrelated log) = []

abbrev pub InRange : List (U256 × U256) → Type 0
InRange [] = Unit
InRange (p ∷ items) = (p.0 < 2 ^ 256) × (p.1 < 2 ^ 256) × InRange items

abbrev pub AreAddresses : Address → Address → Type 0
AreAddresses from to = (length from ≡ 20) × (length to ≡ 20)

-- The ranges of an event's values. A batch must fit the address space and the allocator.
abbrev pub IsEmitted : Host → Event → Type 0
IsEmitted host (transfer o from to value) = AreAddresses from to × (value < 2 ^ 256)
IsEmitted host (transfer_nft o from to token_id) = AreAddresses from to × (token_id < 2 ^ 256)
IsEmitted host (transfer_single o operator from to token_id value) =
    AreAddresses from to × (token_id < 2 ^ 256) × (value < 2 ^ 256)
IsEmitted host (transfer_batch o operator from to items) =
    AreAddresses from to
    × InRange items
    × (length items ≤ host.max_capacity)
    × (128 + 64 * length items < 2 ^ 63)
IsEmitted host (unrelated log) =
    (topic_is log.topic0 transfer_topic ≡ false)
    × (topic_is log.topic0 erc1155_transfer_single_topic ≡ false)
    × (topic_is log.topic0 erc1155_transfer_batch_topic ≡ false)
