-- ===== src/Decode/Erc20.antt =====
-- Token transfers out of logs: src/decode/erc20.rs. Positions are `usize` on a 64-bit target, in
-- the release profile: sums wrap, and a slice out of range panics.
pub mod Slices
pub mod Events
pub mod Batches
pub mod RoundTrip
pub mod Safety
use chain_lens.Base.{
  ℕ, zero, suc, ◌+◌, ◌*◌, ◌%◌, ◌^◌, Option, none, some, List, [], ◌∷◌, ◌++◌, Bool, true, false,
  ◌||◌, not, Outcome, ok, err, panic, ◌>>=◌, ◌>>◌, ok_or, ltb, ◌==◌, if◌then◌else◌, length,
  bytes_eq,
}
use chain_lens.Domain.{
  Bytes, B256, Address, Log, TokenStandard, erc20, erc721, erc1155, TokenTransfer, transfer_topic,
  erc1155_transfer_single_topic, erc1155_transfer_batch_topic,
}
use chain_lens.Decode.Errors.{
  DecodeError, invalid_erc20_data_length, invalid_transfer_address, Host, slice, or_panic,
}

unfoldable pub usize_add : ℕ → ℕ → ℕ
usize_add a b = (a + b) % 2 ^ 64

unfoldable pub usize_mul : ℕ → ℕ → ℕ
usize_mul a b = (a * b) % 2 ^ 64

-- One `if let Some(t) = self.topicN { topics.push(t) }`.
abbrev pub push_topic : Option B256 → List B256 → List B256
push_topic none ts = ts
push_topic (some t) ts = ts ++ (t ∷ [])

unfoldable pub topics : Log → List B256
topics log =
    push_topic log.topic3 (push_topic log.topic2 (push_topic log.topic1 (push_topic log.topic0 [])))

-- `log.topic0 == Some(topic)`
unfoldable pub topic_is : Option B256 → B256 → Bool
topic_is none topic = false
topic_is (some t) topic = bytes_eq t topic

unfoldable pub extract_address_from_topic : Option B256 → ℕ → ℕ → Outcome DecodeError Address
extract_address_from_topic topic log_index topic_index = do
  bytes ← ok_or topic (invalid_transfer_address log_index topic_index)
  slice bytes 12 32

-- The record that each decoder builds.
abbrev pub transfer_of : Log → Address → Address → ℕ → ℕ → TokenStandard → TokenTransfer
transfer_of log from to value token_id standard = record {
  block_number = log.block_number;
  log_index = log.log_index;
  token_address = log.address;
  from = from;
  to = to;
  value = value;
  token_id = token_id;
  standard = standard;
}

abbrev pub length_error : {A : Type 0} → Log → Outcome DecodeError A
length_error log = err (invalid_erc20_data_length log.log_index (length log.log_data))

abbrev pub check : Bool → DecodeError → Outcome DecodeError (Unit {0})
check true e = ok tt
check false e = err e

abbrev pub check_length : Bool → Log → Outcome DecodeError (Unit {0})
check_length b log = check b (invalid_erc20_data_length log.log_index (length log.log_data))

module _ (host : Host) where
  unfoldable pub decode_erc20_transfer : Log → Outcome DecodeError TokenTransfer
  decode_erc20_transfer log = do
    from ← extract_address_from_topic log.topic1 log.log_index 1
    to ← extract_address_from_topic log.topic2 log.log_index 2
    check_length (length log.log_data == 32) log
    ok (transfer_of log from to (host.from_be_slice log.log_data) 0 erc20)

  unfoldable pub decode_erc721_transfer : Log → Outcome DecodeError TokenTransfer
  decode_erc721_transfer log = do
    from ← extract_address_from_topic log.topic1 log.log_index 1
    to ← extract_address_from_topic log.topic2 log.log_index 2
    token_id_bytes ← ok_or log.topic3 (invalid_transfer_address log.log_index 3)
    ok (transfer_of log from to 0 (host.from_be_slice token_id_bytes) erc721)

  unfoldable pub decode_erc1155_single : Log → Outcome DecodeError TokenTransfer
  decode_erc1155_single log = do
    from ← extract_address_from_topic log.topic2 log.log_index 2
    to ← extract_address_from_topic log.topic3 log.log_index 3
    check_length (not (ltb (length log.log_data) 64)) log
    token_id ← slice log.log_data 0 32
    value ← slice log.log_data 32 64
    ok (transfer_of log from to (host.from_be_slice value) (host.from_be_slice token_id) erc1155)

  -- `U256::from_be_slice(&data[start..start + 32]).to::<usize>()`
  unfoldable pub usize_at : Bytes → ℕ → Outcome DecodeError ℕ
  usize_at bytes start = do
    word ← slice bytes start (usize_add start 32)
    or_panic (host.to_usize (host.from_be_slice word))

  -- The loop of the batch, `n` rounds from index `i` on; `break` ends it without an error.
  unfoldable pub batch_items :
      Log
      → Address
      → Address
      → (ids_offset values_offset n i : ℕ) → Outcome DecodeError (List TokenTransfer)
  batch_items log from to ids_offset values_offset zero i = ok []
  batch_items log from to ids_offset values_offset (suc n) i =
      let id_pos = usize_add (usize_add ids_offset 32) (usize_mul i 32) in
      let val_pos = usize_add (usize_add values_offset 32) (usize_mul i 32) in
      let size = length log.log_data in
      elim (ltb size (usize_add id_pos 32) || ltb size (usize_add val_pos 32)) [
        | true ↦ ok []
        | false ↦ do
          id ← slice log.log_data id_pos (usize_add id_pos 32)
          value ← slice log.log_data val_pos (usize_add val_pos 32)
          rest ← batch_items log from to ids_offset values_offset n (i + 1)
          ok (
              transfer_of log from to (host.from_be_slice value) (host.from_be_slice id) erc1155
              ∷ rest)
      ]

  unfoldable pub decode_erc1155_batch : Log → Outcome DecodeError (List TokenTransfer)
  decode_erc1155_batch log = do
    from ← extract_address_from_topic log.topic2 log.log_index 2
    to ← extract_address_from_topic log.topic3 log.log_index 3
    check_length (not (ltb (length log.log_data) 128)) log
    ids_offset ← usize_at log.log_data 0
    values_offset ← usize_at log.log_data 32
    check_length
        (not (
          ltb (length log.log_data) (usize_add ids_offset 32)
          || ltb (length log.log_data) (usize_add values_offset 32)))
        log
    ids_len ← usize_at log.log_data ids_offset
    values_len ← usize_at log.log_data values_offset
    check_length (ids_len == values_len) log
    (if ltb host.max_capacity ids_len
        then panic
        else batch_items log from to ids_offset values_offset ids_len 0)

  -- What one round of the loop over the logs appends.
  unfoldable pub decode_log_transfers : Log → Outcome DecodeError (List TokenTransfer)
  decode_log_transfers log =
      if topic_is log.topic0 transfer_topic
      then (if length (topics log) == 3
          then (do t ← decode_erc20_transfer log; ok (t ∷ []))
          else if length (topics log) == 4
          then (do t ← decode_erc721_transfer log; ok (t ∷ []))
          else ok [])
      else if topic_is log.topic0 erc1155_transfer_single_topic
      then (do t ← decode_erc1155_single log; ok (t ∷ []))
      else if topic_is log.topic0 erc1155_transfer_batch_topic
      then decode_erc1155_batch log
      else ok []

  -- The loop, with `transfers` the vector that it fills.
  unfoldable pub decode_token_transfers_from :
      List TokenTransfer → List Log → Outcome DecodeError (List TokenTransfer)
  decode_token_transfers_from transfers [] = ok transfers
  decode_token_transfers_from transfers (log ∷ logs) = do
    new ← decode_log_transfers log
    decode_token_transfers_from (transfers ++ new) logs

  unfoldable pub decode_token_transfers : List Log → Outcome DecodeError (List TokenTransfer)
  unfolding decode_token_transfers_from
  decode_token_transfers = decode_token_transfers_from []
