-- ===== src/Api/Answers.antt =====
-- What the handlers of src/api/handlers.rs answer.
use chain_lens.Base.{unwrap_or, ℕ, ◌≡◌, refl, Option, some, List, map, keep, take, min, In, ok, pos}
use chain_lens.Domain.{Bytes, Log}
use chain_lens.Store.Db.{Db, AddressTransaction}
use chain_lens.Api.{
  Hex, i64_max, OrderBy, AddressQuery, EventQuery, tx_key, log_key, page_limit, limited, of_address,
  of_contract, decode_topic, address_transaction_response, log_response, get_address_transactions,
  get_contract_events,
}
use chain_lens.Api.Pages.{
  Page, select-Page, Below, AtMost, AtLeast, Topic, of_address_iff, of_contract_iff,
}

module _ (hex : Hex) (db : Db) (address address_bytes : Bytes)
    (decoded : hex.decode address ≡ some address_bytes) (n : ℕ) where
  -- For an address in hexadecimal notation and a limit that is not negative, the answer has the
  -- transactions of this address below the given block, the latest first, in the order that the
  -- database has for them: at most the limit and at most 500. One is left out only when the page is
  -- full, and then it comes after the others.
  pub get_address_transactions-Page :
      (order : OrderBy AddressTransaction tx_key) (query : AddressQuery)
      → unwrap_or query.limit (pos 50) ≡ pos n
      → (rows : List AddressTransaction) × (get_address_transactions hex order db address query
          ≡ ok (map (address_transaction_response hex) rows))
        × Page tx_key
            (min n 500)
            (λ r.
              In r db.address_transactions
              × ((r.address ≡ address_bytes)
                  × Below r.block_number (unwrap_or query.before_block i64_max)))
            rows
  unfolding get_address_transactions page_limit limited
  get_address_transactions-Page order query bound =
      let before_block = unwrap_or query.before_block i64_max in
      (
        take (min n 500)
            (order.sort (keep (of_address address_bytes before_block) db.address_transactions)),
        rw (decoded, bound) refl,
        select-Page tx_key order (of_address address_bytes before_block) (min n 500)
            db.address_transactions _ (of_address_iff address_bytes before_block),
      )

  -- For an address in hexadecimal notation, a limit that is not negative, and a first topic in
  -- hexadecimal notation or none, the answer has the logs of this address in the given range of
  -- blocks and, if a topic is given, with this first topic, the latest first: at most the limit and
  -- at most 500. One is left out only when the page is full, and then it comes after the others.
  pub get_contract_events-Page :
      (order : OrderBy Log log_key) (query : EventQuery) (topic0 : Option Bytes)
      → unwrap_or query.limit (pos 50) ≡ pos n
      → decode_topic hex query.topic0 ≡ ok topic0
      → (rows : List Log) × (get_contract_events hex order db address query
          ≡ ok (map (log_response hex) rows))
        × Page log_key
            (min n 500)
            (λ r.
              In r db.logs
              × ((r.address ≡ address_bytes)
                  × (AtLeast r.block_number (unwrap_or query.from_block (pos 0))
                      × (AtMost r.block_number (unwrap_or query.to_block i64_max)
                          × Topic topic0 r.topic0))))
            rows
  unfolding get_contract_events page_limit limited
  get_contract_events-Page order query topic0 bound topic =
      let from_block = unwrap_or query.from_block (pos 0) in
      let to_block = unwrap_or query.to_block i64_max in
      (
        take (min n 500)
            (order.sort (keep (of_contract address_bytes from_block to_block topic0) db.logs)),
        rw (decoded, bound, topic) refl,
        select-Page log_key order (of_contract address_bytes from_block to_block topic0) (min n 500)
            db.logs _ (of_contract_iff address_bytes from_block to_block topic0),
      )
