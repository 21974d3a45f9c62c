-- ===== src/Tests/Asking.antt =====
-- A node that has nothing.
use chain_lens.Base.{ℕ, ◌≡◌, none, some, [], Bool, ok}
use chain_lens.Domain.{B256}
use chain_lens.Rpc.{BlockTag, retries_exhausted, EthClient}
use chain_lens.Rpc.Retry.{rpc_default}
use chain_lens.Rpc.Http.{null, Reply, answered, Request, Texts, http_client}
use chain_lens.Rpc.Http.Missing.{http_client_never_none}

abbrev texts : Texts
texts = record {
  unreadable = retries_exhausted;
  missing_result = retries_exhausted;
  null_tag = λ _. retries_exhausted;
}

abbrev nothing : Request → ℕ → Reply ℕ
nothing request attempt =
    answered 200 retries_exhausted (some (record { result = some null; error = none }))

abbrev empty_client : EthClient
empty_client =
    http_client texts rpc_default (λ n low high. high) nothing (λ j. none) (λ j. none)
      (λ j. some []) (λ j. none)

http_client_never_none_example :
    ((number : ℕ) (full_transactions : Bool)
      → ¬ (empty_client.get_block_by_number number full_transactions ≡ ok none))
    × ((tag : BlockTag) (full_transactions : Bool)
        → ¬ (empty_client.get_block_by_tag tag full_transactions ≡ ok none))
    × ((hash : B256) → ¬ (empty_client.get_transaction_receipt hash ≡ ok none))
    × ((hash : B256) → ¬ (empty_client.get_transaction_by_hash hash ≡ ok none))
http_client_never_none_example =
    http_client_never_none texts rpc_default (λ n low high. high) nothing (λ j. none) (λ j. none)
      (λ j. some []) (λ j. none)
