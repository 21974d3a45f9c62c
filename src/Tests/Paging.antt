-- ===== src/Tests/Paging.antt =====
-- Pages at concrete tables.
use chain_lens.Base.{unwrap_or, ◌≡◌, refl, some, none, List, [], ◌∷◌, map, min, In, ok, pos}
use chain_lens.Domain.{Log}
use chain_lens.Store.Db.{Db, AddressTransaction}
use chain_lens.Api.{
  Hex, i64_max, AddressQuery, tx_key, address_transaction_response, get_address_transactions,
}
use chain_lens.Api.Pages.{Page, Below}
use chain_lens.Api.Answers.{get_address_transactions-Page}
use chain_lens.Tests.Sorting.{insertion}
use chain_lens.Tests.Data.{fresh_db}

abbrev plain : Hex
plain = record { encode = λ b. b; decode = λ b. some b }

abbrev entry : AddressTransaction
entry = record { address = 1 ∷ []; block_number = 7; tx_index = 2; tx_hash = 9 ∷ []; direction = 0 }

abbrev event : Log
event = record {
  block_number = 7;
  log_index = 3;
  tx_hash = 9 ∷ [];
  address = 1 ∷ [];
  topic0 = some (4 ∷ []);
  topic1 = none;
  topic2 = none;
  topic3 = none;
  log_data = [];
}

abbrev stored : Db
stored = record fresh_db { address_transactions = entry ∷ entry ∷ []; logs = event ∷ [] }

abbrev latest : AddressQuery
latest = record { limit = some (pos 1); before_block = none }

get_address_transactions-Page_example :
    (rows : List AddressTransaction) × (get_address_transactions plain
        (insertion tx_key)
        stored
        (1 ∷ [])
        latest
      ≡ ok (map (address_transaction_response plain) rows))
    × Page tx_key
        (min 1 500)
        (λ r.
          In r stored.address_transactions
          × ((r.address ≡ 1 ∷ []) × Below r.block_number (unwrap_or latest.before_block i64_max)))
        rows
get_address_transactions-Page_example =
    get_address_transactions-Page plain stored (1 ∷ []) (1 ∷ []) refl 1 (insertion tx_key) latest
      refl
