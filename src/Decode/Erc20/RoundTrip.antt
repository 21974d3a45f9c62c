-- ===== src/Decode/Erc20/RoundTrip.antt =====
-- src/decode/erc20.rs on the logs of the standards' events.
use mathlib.Core.List.{append_assoc, append-nil}
use chain_lens.Base.{
  ◌≡◌, refl, ap, ◌∙◌, some, List, [], ◌∷◌, ◌++◌, length, map, true, false, ok, arith, All,
  length-append, bytes_eq, flat_map,
}
use chain_lens.Domain.{
  Bytes, U256, TokenTransfer, transfer_topic, erc1155_transfer_single_topic,
  erc1155_transfer_batch_topic,
}
use chain_lens.Decode.Errors.{DecodeError, Host, HostLaws, slice}
use chain_lens.Decode.Erc20.{
  decode_erc20_transfer, decode_erc721_transfer, decode_erc1155_single, decode_log_transfers,
  decode_token_transfers_from, decode_token_transfers, topics, topic_is,
}
use chain_lens.Decode.Erc20.Slices.{slice-append, extract-address_topic}
use chain_lens.Decode.Erc20.Events.{
  Event, transfer, transfer_nft, transfer_single, transfer_batch, unrelated, log_of_event,
  transfers_of_event, IsEmitted,
}
use chain_lens.Decode.Erc20.Batches.{decode_batch-event}

pub topic_tests :
    (topic_is (some transfer_topic) transfer_topic ≡ true)
    × (topic_is (some erc1155_transfer_single_topic) transfer_topic ≡ false)
    × (topic_is (some erc1155_transfer_single_topic) erc1155_transfer_single_topic ≡ true)
    × (topic_is (some erc1155_transfer_batch_topic) transfer_topic ≡ false)
    × (topic_is (some erc1155_transfer_batch_topic) erc1155_transfer_single_topic ≡ false)
    × (topic_is (some erc1155_transfer_batch_topic) erc1155_transfer_batch_topic ≡ true)
unfolding topic_is bytes_eq
topic_tests = (refl, refl, refl, refl, refl, refl)

module _ (host : Host) (to_be_bytes : U256 → Bytes) (laws : HostLaws host to_be_bytes) where
  -- The two words of a single transfer.
  single_words :
      (id value : U256)
      → let bytes = to_be_bytes id ++ to_be_bytes value in
        (length bytes ≡ 64)
        × (slice {E = DecodeError} bytes 0 32 ≡ ok (to_be_bytes id))
        × (slice {E = DecodeError} bytes 32 64 ≡ ok (to_be_bytes value))
  single_words id value =
      let e : to_be_bytes id ++ to_be_bytes value ≡ to_be_bytes id ++ (to_be_bytes value ++ []) =
        simp append-nil in
      (
        omega (arith, length-append (to_be_bytes id) (to_be_bytes value), laws.be_length),
        slice-append {E = DecodeError} [] (to_be_bytes id) (to_be_bytes value) 0 32 refl
            (omega (arith, laws.be_length id)),
        rw e (
            slice-append {E = DecodeError} (to_be_bytes id) (to_be_bytes value) [] 32 64
              (omega (arith, laws.be_length id)) (omega (arith, laws.be_length))),
      )

  -- One log of an event gives the event's transfers.
  decode_log_transfers-event :
      (e : Event)
      → IsEmitted host e
      → decode_log_transfers host (log_of_event to_be_bytes e)
        ≡ ok (transfers_of_event to_be_bytes e)
  unfolding decode_log_transfers log_of_event transfers_of_event decode_erc20_transfer
      decode_erc721_transfer decode_erc1155_single topics
  decode_log_transfers-event (transfer o from to value) ((f, t), h) = ground (
    arith,
    topic_tests,
    extract-address_topic from o.log_index 1 f,
    extract-address_topic to o.log_index 2 t,
    laws.be_length value,
    laws.be_round_trip value h,
  )
  decode_log_transfers-event (transfer_nft o from to token_id) ((f, t), h) = ground (
    arith,
    topic_tests,
    extract-address_topic from o.log_index 1 f,
    extract-address_topic to o.log_index 2 t,
    laws.be_round_trip token_id h,
  )
  decode_log_transfers-event (transfer_single o operator from to token_id value) ((f, t), h, k) =
      ground (
        arith,
        topic_tests,
        extract-address_topic from o.log_index 2 f,
        extract-address_topic to o.log_index 3 t,
        single_words token_id value,
        laws.be_round_trip token_id h,
        laws.be_round_trip value k,
      )
  decode_log_transfers-event (transfer_batch o operator from to items) h =
      ground
        (arith, topic_tests, decode_batch-event host to_be_bytes laws o operator from to items h)
  decode_log_transfers-event (unrelated log) h = ground arith

  decode_from-events :
      (acc : List TokenTransfer) (events : List Event)
      → All (IsEmitted host) events
      → decode_token_transfers_from host acc (map (log_of_event to_be_bytes) events)
        ≡ ok (acc ++ flat_map (transfers_of_event to_be_bytes) events)
  unfolding decode_token_transfers_from
  decode_from-events acc [] h = rw append-nil
  decode_from-events acc (e ∷ events) h = rw (decode_log_transfers-event e h.0) (
      decode_from-events (acc ++ transfers_of_event to_be_bytes e) events h.1
      ∙ ap ok (append_assoc acc (transfers_of_event to_be_bytes e) _))

  -- Given the documented behaviour of `U256`: the logs of any list of events that the ERC-20,
  -- ERC-721 and ERC-1155 standards describe, whose values are in range, whose addresses have 20
  -- bytes and whose batches fit the allocator, mixed with logs of other events, decode without an
  -- error to exactly the events' transfers, in order.
  pub decode_token_transfers-events :
      (events : List Event)
      → All (IsEmitted host) events
      → decode_token_transfers host (map (log_of_event to_be_bytes) events)
        ≡ ok (flat_map (transfers_of_event to_be_bytes) events)
  unfolding decode_token_transfers
  decode_token_transfers-events events h = decode_from-events [] events h
