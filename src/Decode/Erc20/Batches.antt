-- ===== src/Decode/Erc20/Batches.antt =====
-- The batches of src/decode/erc20.rs on the logs of TransferBatch events.
use mathlib.Core.List.{append_assoc, append-nil}
use chain_lens.Base.{
  ℕ, ◌+◌, ◌*◌, ◌^◌, ◌<◌, ◌≤◌, ◌≡◌, refl, sym, ap, ◌∙◌, List, [], ◌∷◌, ◌++◌, length, map, ok, arith,
  length-append, length-map,
}
use chain_lens.Domain.{Bytes, Address, U256, Log, erc1155}
use chain_lens.Decode.Errors.{DecodeError, Host, HostLaws, slice}
use chain_lens.Decode.Erc20.{
  usize_add, usize_mul, transfer_of, usize_at, batch_items, decode_erc1155_batch,
}
use chain_lens.Decode.Erc20.Slices.{
  usize_add_small, usize_mul_small, slice-append, extract-address_topic,
}
use chain_lens.Decode.Erc20.Events.{
  Origin, transfer_batch, words, batch_data, log_of_event, transfers_of_event, InRange, IsEmitted,
}

module _ (host : Host) (to_be_bytes : U256 → Bytes) (laws : HostLaws host to_be_bytes) where
  length-words : (vs : List U256) → length (words to_be_bytes vs) ≡ 32 * length vs
  unfolding words
  length-words [] = omega arith
  length-words (v ∷ vs) = omega (
    arith,
    length-append (to_be_bytes v) (words to_be_bytes vs),
    length-words vs,
    laws.be_length v,
  )

  -- A word of the data, read as a position.
  usize_at-word :
      (pre post : Bytes) (v start : ℕ)
      → v < 2 ^ 64
      → start ≡ length pre
      → start + 32 < 2 ^ 64
      → usize_at host (pre ++ (to_be_bytes v ++ post)) start ≡ ok v
  unfolding usize_at
  usize_at-word pre post v start fits at small =
      rw
        (
          usize_add_small start 32 small,
          slice-append {E = DecodeError} pre (to_be_bytes v) post start (start + 32) at
              (omega (arith, laws.be_length v)),
        )
        (rw (laws.be_round_trip v (omega arith), laws.usize_fits v fits) refl)

  -- A word of an array's body, at the position that the loop computes.
  array_word :
      (bytes pre post : Bytes) (v base i : ℕ)
      → bytes ≡ pre ++ (to_be_bytes v ++ post)
      → length pre ≡ base + 32 + i * 32
      → length bytes < 2 ^ 63
      → let pos = usize_add (usize_add base 32) (usize_mul i 32) in
        (usize_add pos 32 ≤ length bytes)
        × (slice {E = DecodeError} bytes pos (usize_add pos 32) ≡ ok (to_be_bytes v))
  array_word bytes pre post v base i d at small =
      let size : length bytes ≡ length pre + (32 + length post) =
        ap length d
        ∙ omega (
          arith,
          length-append pre (to_be_bytes v ++ post),
          length-append (to_be_bytes v) post,
          laws.be_length v,
        ) in
      let start : usize_add (usize_add base 32) (usize_mul i 32) ≡ length pre =
        rw (usize_add_small base 32 (omega arith), usize_mul_small i 32 (omega arith))
          (usize_add_small (base + 32) (i * 32) (omega arith) ∙ sym at) in
      let end : usize_add (length pre) 32 ≡ length pre + 32 =
        usize_add_small (length pre) 32 (omega arith) in
      rw (start, end)
        (
          omega arith,
          rw d (
              slice-append {E = DecodeError} pre (to_be_bytes v) post (length pre) (length pre + 32)
                refl (omega (arith, laws.be_length v))),
        )

  -- The loop reads what is left of both arrays.
  batch_items-words :
      (log : Log) (from to : Address) (ids_offset values_offset i : ℕ) (items : List (U256 × U256))
      (pre post pre' post' : Bytes)
      → log.log_data ≡ pre ++ (words to_be_bytes (map (λ p. p.0) items) ++ post)
      → log.log_data ≡ pre' ++ (words to_be_bytes (map (λ p. p.1) items) ++ post')
      → length pre ≡ ids_offset + 32 + i * 32
      → length pre' ≡ values_offset + 32 + i * 32
      → length log.log_data < 2 ^ 63
      → InRange items
      → batch_items host log from to ids_offset values_offset (length items) i
        ≡ ok (map (λ p. transfer_of log from to p.1 p.0 erc1155) items)
  unfolding batch_items words
  batch_items-words log from to io vo i [] pre post pre' post' d d' at at' small r = refl
  batch_items-words log from to io vo i (p ∷ items) pre post pre' post' d d' at at' small r =
      let ids = words to_be_bytes (map (λ q. q.0) items) in
      let values = words to_be_bytes (map (λ q. q.1) items) in
      let e = d ∙ ap (λ t. pre ++ t) (append_assoc (to_be_bytes p.0) ids post) in
      let e' = d' ∙ ap (λ t. pre' ++ t) (append_assoc (to_be_bytes p.1) values post') in
      let (in_id, id) = array_word log.log_data pre (ids ++ post) p.0 io i e at small in
      let (in_value, value) =
        array_word log.log_data pre' (values ++ post') p.1 vo i e' at' small in
      let rest =
        batch_items-words log from to io vo (i + 1) items (pre ++ to_be_bytes p.0) post
          (pre' ++ to_be_bytes p.1) post'
          (e ∙ sym (append_assoc pre (to_be_bytes p.0) (ids ++ post)))
          (e' ∙ sym (append_assoc pre' (to_be_bytes p.1) (values ++ post')))
          (omega (arith, length-append pre (to_be_bytes p.0), laws.be_length p.0))
          (omega (arith, length-append pre' (to_be_bytes p.1), laws.be_length p.1)) small r.2 in
      ground (arith, laws.be_round_trip p.0 r.0, laws.be_round_trip p.1 r.1)

  length-batch_data :
      (ids values : List U256)
      → length (batch_data to_be_bytes ids values) ≡ 128 + 32 * length ids + 32 * length values
  unfolding batch_data
  length-batch_data ids values =
      omega (arith, length-append {0}, length-words ids, length-words values, laws.be_length)

  -- The batch's data, split at the bodies of its two arrays.
  ids_at : List U256 → List U256 → Bytes
  ids_at ids values =
      to_be_bytes 64 ++ (to_be_bytes (96 + 32 * length ids) ++ to_be_bytes (length ids))

  values_at : List U256 → List U256 → Bytes
  unfolding ids_at
  values_at ids values = ids_at ids values ++ (words to_be_bytes ids ++ to_be_bytes (length values))

  batch_data-ids :
      (ids values : List U256)
      → batch_data to_be_bytes ids values
        ≡ ids_at ids values
          ++ (words to_be_bytes ids ++ (to_be_bytes (length values) ++ words to_be_bytes values))
  unfolding batch_data ids_at
  batch_data-ids ids values = simp append_assoc

  batch_data-values :
      (ids values : List U256)
      → batch_data to_be_bytes ids values ≡ values_at ids values ++ (words to_be_bytes values ++ [])
  unfolding batch_data values_at
  batch_data-values ids values = simp (append_assoc, append-nil)

  -- The four head words of a batch's data.
  batch_heads :
      (ids values : List U256)
      → length ids ≡ length values
      → 128 + 64 * length ids < 2 ^ 63
      → let bytes = batch_data to_be_bytes ids values in
        (usize_at host bytes 0 ≡ ok 64)
        × (usize_at host bytes 32 ≡ ok (96 + 32 * length ids))
        × (usize_at host bytes 64 ≡ ok (length ids))
        × (usize_at host bytes (96 + 32 * length ids) ≡ ok (length values))
  unfolding batch_data
  batch_heads ids values same small =
      let a = to_be_bytes 64 in
      let b = to_be_bytes (96 + 32 * length ids) in
      let c = to_be_bytes (length ids) in
      let w = words to_be_bytes ids in
      let d = to_be_bytes (length values) in
      let v = words to_be_bytes values in
      let third : batch_data to_be_bytes ids values ≡ (a ++ b) ++ (c ++ (w ++ (d ++ v))) =
        simp append_assoc in
      let fourth : batch_data to_be_bytes ids values ≡ (a ++ (b ++ (c ++ w))) ++ (d ++ v) =
        simp append_assoc in
      (
        usize_at-word [] (b ++ (c ++ (w ++ (d ++ v)))) 64 0 (omega arith) refl (omega arith),
        usize_at-word a (c ++ (w ++ (d ++ v))) (96 + 32 * length ids) 32 (omega arith)
            (omega (arith, laws.be_length 64)) (omega arith),
        rw third (
            usize_at-word (a ++ b) (w ++ (d ++ v)) (length ids) 64 (omega arith)
              (omega (arith, length-append {0}, laws.be_length)) (omega arith)),
        rw fourth (
            usize_at-word (a ++ (b ++ (c ++ w))) v (length values) (96 + 32 * length ids)
              (omega arith) (omega (arith, length-append {0}, laws.be_length, length-words ids))
              (omega arith)),
      )

  pub decode_batch-event :
      (o : Origin) (operator from to : Address) (items : List (U256 × U256))
      → IsEmitted host (transfer_batch o operator from to items)
      → let e = transfer_batch o operator from to items in
        decode_erc1155_batch host (log_of_event to_be_bytes e)
        ≡ ok (transfers_of_event to_be_bytes e)
  unfolding decode_erc1155_batch log_of_event transfers_of_event ids_at values_at
  decode_batch-event o operator from to items (addresses, range, room, small) =
      let ids = map (λ p. p.0) items in
      let values = map (λ p. p.1) items in
      let n : length ids ≡ length items = length-map items (λ p. p.0) in
      let n' : length values ≡ length items = length-map items (λ p. p.1) in
      let bytes = batch_data to_be_bytes ids values in
      let size : length bytes ≡ 128 + 64 * length items =
        omega (arith, length-batch_data ids values) in
      let (h0, h1, h2, h3) = batch_heads ids values (omega arith) (omega arith) in
      let log = log_of_event to_be_bytes (transfer_batch o operator from to items) in
      let body =
        batch_items-words log from to 64 (96 + 32 * length ids) 0 items (ids_at ids values)
          (to_be_bytes (length values) ++ words to_be_bytes values) (values_at ids values) []
          (batch_data-ids ids values) (batch_data-values ids values)
          (omega (arith, length-append {0}, laws.be_length))
          (omega (arith, length-append {0}, laws.be_length, length-words ids)) (omega arith)
          range in
      ground (
        arith,
        extract-address_topic from o.log_index 2 addresses.0,
        extract-address_topic to o.log_index 3 addresses.1,
        usize_add_small 64 32 (omega arith),
        usize_add_small (96 + 32 * length ids) 32 (omega arith),
      )
