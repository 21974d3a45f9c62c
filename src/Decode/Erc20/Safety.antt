-- ===== src/Decode/Erc20/Safety.antt =====
-- src/decode/erc20.rs on arbitrary logs.
use mathlib.Core.List.{append_assoc, append-nil}
use chain_lens.Base.{
  >>=-eq-ok, Ensures-ok, Ensures, panicked, Ensures->>=, Ensures-of_ok, Ensures-if, ℕ, zero, suc,
  ◌+◌, ◌^◌, ◌<◌, ◌≤◌, ◌≡◌, refl, ◌∙◌, List, [], ◌∷◌, ◌++◌, length, ok, panic, arith, All,
  length-append,
}
use chain_lens.Domain.{Bytes, Address, U256, Log, TokenTransfer, erc1155_transfer_batch_topic}
use chain_lens.Decode.Errors.{DecodeError, Host, HostLaws}
use chain_lens.Decode.Erc20.{
  usize_at, batch_items, decode_erc20_transfer, decode_erc721_transfer, decode_erc1155_single,
  decode_erc1155_batch, decode_log_transfers, decode_token_transfers_from, decode_token_transfers,
}
use chain_lens.Decode.Erc20.Slices.{
  usize_add_small, slice-append, extract-address_topic, address_topic,
}
use chain_lens.Decode.Erc20.RoundTrip.{topic_tests}
use chain_lens.Decode.Erc20.Events.{Origin, log_of}

-- The transfer is one of this log's token, at this log's place.
abbrev pub Belongs : Log → TokenTransfer → Type 0
Belongs log t =
    (t.block_number ≡ log.block_number)
    × (t.log_index ≡ log.log_index)
    × (t.token_address ≡ log.address)

-- The transfers come log by log, in the order of the logs.
abbrev pub Grouped : List Log → List TokenTransfer → Type 0
Grouped [] ts = ts ≡ []
Grouped (log ∷ logs) ts =
    (own rest : List TokenTransfer) × (ts ≡ own ++ rest) × All (Belongs log) own × Grouped logs rest

module _ (host : Host) where
  batch_items-Belongs :
      (log : Log) (from to : Address) (io vo n i : ℕ) (ts : List TokenTransfer)
      → batch_items host log from to io vo n i ≡ ok ts
      → All (Belongs log) ts
  unfolding batch_items
  batch_items-Belongs log from to io vo zero i [] h = tt
  batch_items-Belongs log from to io vo zero i (t ∷ ts) h = cc
  batch_items-Belongs log from to io vo (suc n) i [] h = tt
  batch_items-Belongs log from to io vo (suc n) i (t ∷ ts) h =
      ground (arith, batch_items-Belongs log from to io vo n (i + 1) ts)

  batch_items-Ensures :
      (log : Log) (from to : Address) (io vo n i : ℕ)
      → Ensures (All (Belongs log)) (batch_items host log from to io vo n i)
  batch_items-Ensures log from to io vo n i =
      Ensures-of_ok (All (Belongs log)) (batch_items host log from to io vo n i)
        (batch_items-Belongs log from to io vo n i)

  decode_erc1155_batch-Ensures :
      (log : Log) → Ensures (All (Belongs log)) (decode_erc1155_batch host log)
  unfolding decode_erc1155_batch
  decode_erc1155_batch-Ensures log =
      search (Ensures->>=, Ensures-if, panicked, batch_items-Ensures) depth 14

  decode_erc1155_batch-Belongs :
      (log : Log) (ts : List TokenTransfer)
      → decode_erc1155_batch host log ≡ ok ts
      → All (Belongs log) ts
  decode_erc1155_batch-Belongs log ts =
      Ensures-ok (All (Belongs log)) (decode_erc1155_batch host log)
        (decode_erc1155_batch-Ensures log)

  decode_erc20_transfer-Belongs :
      (log : Log) (t : TokenTransfer) → decode_erc20_transfer host log ≡ ok t → Belongs log t
  unfolding decode_erc20_transfer
  decode_erc20_transfer-Belongs log t h = ground arith

  decode_erc721_transfer-Belongs :
      (log : Log) (t : TokenTransfer) → decode_erc721_transfer host log ≡ ok t → Belongs log t
  unfolding decode_erc721_transfer
  decode_erc721_transfer-Belongs log t h = ground arith

  decode_erc1155_single-Belongs :
      (log : Log) (t : TokenTransfer) → decode_erc1155_single host log ≡ ok t → Belongs log t
  unfolding decode_erc1155_single
  decode_erc1155_single-Belongs log t h = ground arith

  decode_log_transfers-Belongs :
      (log : Log) (ts : List TokenTransfer)
      → decode_log_transfers host log ≡ ok ts
      → All (Belongs log) ts
  unfolding decode_log_transfers
  decode_log_transfers-Belongs log [] h = tt
  decode_log_transfers-Belongs log (t ∷ ts) h = ground (
    arith,
    decode_erc20_transfer-Belongs log t,
    decode_erc721_transfer-Belongs log t,
    decode_erc1155_single-Belongs log t,
    decode_erc1155_batch-Belongs log (t ∷ ts),
  )

  decode_from-Grouped :
      (acc : List TokenTransfer) (logs : List Log) (ts : List TokenTransfer)
      → decode_token_transfers_from host acc logs ≡ ok ts
      → (new : List TokenTransfer) × (ts ≡ acc ++ new) × Grouped logs new
  unfolding decode_token_transfers_from
  decode_from-Grouped acc [] ts h = ([], rw append-nil (ground arith), refl)
  decode_from-Grouped acc (log ∷ logs) ts h =
      let (own, e, h1) = >>=-eq-ok _ _ h in
      let (rest, e', g) = decode_from-Grouped (acc ++ own) logs ts h1 in
      (
        own ++ rest,
        e' ∙ append_assoc acc own rest,
        (own, rest, refl, decode_log_transfers-Belongs log own e, g),
      )

  -- Whatever the logs hold: if decoding succeeds, its transfers come log by log in the order of the
  -- logs, each with the block number, the log index and the contract of the log that it came from.
  pub decode_token_transfers-Grouped :
      (logs : List Log) (ts : List TokenTransfer)
      → decode_token_transfers host logs ≡ ok ts
      → Grouped logs ts
  unfolding decode_token_transfers
  decode_token_transfers-Grouped logs ts h =
      let (new, e, g) = decode_from-Grouped [] logs ts h in rw e g

-- A panic on one log is a panic on every list that reaches it.
decode_from-panic :
    (host : Host) (acc : List TokenTransfer) (before after : List Log) (log : Log)
    (ts : List TokenTransfer)
    → decode_token_transfers_from host acc before ≡ ok ts
    → decode_log_transfers host log ≡ panic
    → decode_token_transfers_from host acc (before ++ log ∷ after) ≡ panic
unfolding decode_token_transfers_from
decode_from-panic host acc [] after log ts h p = rw p
decode_from-panic host acc (l ∷ before) after log ts h p =
    let (own, e, h1) =
      >>=-eq-ok (decode_log_transfers host l)
        (λ new. decode_token_transfers_from host (acc ++ new) before) h in
    rw e (decode_from-panic host (acc ++ own) before after log ts h1 p)

-- The log of a `TransferBatch` event with this data.
abbrev pub batch_log : Origin → (operator from to : Address) → Bytes → Log
batch_log o operator from to bytes =
    log_of o erc1155_transfer_batch_topic (address_topic operator) (address_topic from)
      (address_topic to ∷ []) bytes

-- A batch whose first offset does not fit a `usize` panics.
module _ (host : Host) (to_be_bytes : U256 → Bytes) (laws : HostLaws host to_be_bytes) where
  batch_offset-panic :
      (o : Origin) (operator from to : Address) (v : U256) (rest : Bytes)
      → (length from ≡ 20)
      → (length to ≡ 20)
      → 2 ^ 64 ≤ v
      → v < 2 ^ 256
      → 96 ≤ length rest
      → decode_erc1155_batch host (batch_log o operator from to (to_be_bytes v ++ rest)) ≡ panic
  unfolding decode_erc1155_batch usize_at
  batch_offset-panic o operator from to v rest lf lt big fits size = ground (
    arith,
    extract-address_topic from o.log_index 2 lf,
    extract-address_topic to o.log_index 3 lt,
    length-append (to_be_bytes v) rest,
    laws.be_length v,
    laws.be_round_trip v fits,
    laws.usize_overflows v big,
    usize_add_small 0 32 (omega arith),
    slice-append {E = DecodeError} [] (to_be_bytes v) rest 0 32 refl
        (omega (arith, laws.be_length v)),
  )

  -- A log of any contract can stop the decoder: a `TransferBatch` event between 20-byte addresses
  -- whose data has at least 128 bytes and starts with an offset of 2^64 or more makes decoding
  -- panic, whatever logs follow it and whatever decodable logs come before it.
  pub decode_token_transfers_panic :
      (before after : List Log) (ts : List TokenTransfer) (o : Origin) (operator from to : Address)
      (v : U256) (rest : Bytes)
      → decode_token_transfers host before ≡ ok ts
      → (length from ≡ 20)
      → (length to ≡ 20)
      → 2 ^ 64 ≤ v
      → v < 2 ^ 256
      → 96 ≤ length rest
      → decode_token_transfers host
          (before ++ batch_log o operator from to (to_be_bytes v ++ rest) ∷ after)
        ≡ panic
  unfolding decode_token_transfers decode_log_transfers
  decode_token_transfers_panic before after ts o operator from to v rest h lf lt big fits size =
      decode_from-panic host [] before after (batch_log o operator from to (to_be_bytes v ++ rest))
        ts h
        (ground
          (arith, topic_tests, batch_offset-panic o operator from to v rest lf lt big fits size))
