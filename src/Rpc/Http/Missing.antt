-- ===== src/Rpc/Http/Missing.antt =====
-- What src/rpc/http.rs answers when the node has no block, no transaction or no receipt.
use mathlib.Core.Option
use mathlib.Core.Option.{some-injective, none-ne-some}
use chain_lens.Base.{
  sym, ℕ, ◌≡◌, ap, ◌∙◌, inl, inr, Option, none, some, List, Bool, Option-cases, Bool-cases, Outcome,
  ok, err, panic,
}
use chain_lens.Domain.{B256}
use chain_lens.Rpc.{
  BlockTag, RpcError, BlockResponse, TransactionResponse, ReceiptResponse, EthClient,
}
use chain_lens.Rpc.Retry.{RetryPolicy, call}
use chain_lens.Rpc.Retry.Laws.{call-Stops}
use chain_lens.Rpc.Http.{
  JsonRpcError, is_success, Json, null, value, Reply, timed_out, unreachable, answered, Request,
  Texts, read_result, result_of, execute_once, ask, http_client, get_block_by_number,
  get_block_by_tag, get_transaction_receipt, get_transaction_by_hash,
}

abbrev answer : {T : Type 0} → Outcome RpcError T → Option T
answer (ok v) = some v
answer (err e) = none
answer panic = none

module _ {J : Type 0} (texts : Texts) where
  result_of-ok :
      {T : Type 0} (read : J → Option T) (v : T) (r : Option (Json J)) (e : Option JsonRpcError)
      → result_of texts read (record { result = r; error = e }) ≡ ok v
      → (j : J) × (read j ≡ some v)
  unfolding result_of read_result
  result_of-ok read v none none h = cc
  result_of-ok read v none (some e) h = cc
  result_of-ok read v (some null) none h = cc
  result_of-ok read v (some null) (some e) h = cc
  result_of-ok read v (some (value j)) none h = elim (Option-cases (read j)) [
    | inl unread ↦ let stuck = rw unread at h in cc
    | inr (w, found) ↦ (j, found ∙ ap answer (rw found at h))
  ]
  result_of-ok read v (some (value j)) (some e) h = elim (Option-cases (read j)) [
    | inl unread ↦ let stuck = rw unread at h in cc
    | inr (w, found) ↦ let stuck = rw found at h in cc
  ]

  -- An answer of an attempt is a value that serde has made of one that is not `null`.
  execute_once-ok :
      {T : Type 0} (read : J → Option T) (reply : Reply J) (v : T)
      → execute_once texts read reply ≡ ok v
      → (j : J) × (read j ≡ some v)
  unfolding execute_once
  execute_once-ok read timed_out v h = cc
  execute_once-ok read (unreachable message) v h = cc
  execute_once-ok read (answered status body_text none) v h =
      elim (Bool-cases (is_success status)) [
        | inl fine ↦ let stuck = rw fine at h in cc
        | inr wrong ↦ let stuck = rw wrong at h in cc
      ]
  execute_once-ok read (answered status body_text (some body)) v h =
      elim (Bool-cases (is_success status)) [
        | inl fine ↦ result_of-ok read v body.result body.error (rw fine at h)
        | inr wrong ↦ let stuck = rw wrong at h in cc
      ]

  module _ (policy : RetryPolicy) (gen_range : ℕ → ℕ → ℕ → ℕ) (send : Request → ℕ → Reply J)
      (read_block : J → Option BlockResponse) (read_receipt : J → Option ReceiptResponse)
      (read_receipts : J → Option (List ReceiptResponse))
      (read_transaction : J → Option TransactionResponse) where
    ask-ok :
        {T : Type 0} (read : J → Option T) (request : Request) (v : T)
        → ask texts policy gen_range send read_block read_receipt read_receipts read_transaction
            read request
          ≡ ok v
        → (j : J) × (read j ≡ some v)
    unfolding ask call
    ask-ok read request v h =
        let execute : ℕ → Outcome RpcError _ = λ n. execute_once texts read (send request n) in
        let stops = call-Stops policy gen_range execute in
        execute_once-ok read (send request stops.stop) v (sym stops.answer ∙ h)

    -- The type of an optional answer: serde reads `null` as the absence of the whole result.
    never_none :
        {T : Type 0} (read : J → Option T) (j : J) → ¬ (Option.map some (read j) ≡ some none)
    never_none read j h = elim (Option-cases (read j)) [
      | inl unread ↦ let stuck = rw unread at h in cc
      | inr (w, found) ↦ let stuck = rw found at h in cc
    ]

    abbrev asking : EthClient
    asking =
        http_client texts policy gen_range send read_block read_receipt read_receipts
          read_transaction

    -- The client never answers that a block, a transaction or a receipt does not exist, whatever
    -- the node says, `null` included, and however serde reads its values.
    pub http_client_never_none :
        ((number : ℕ) (full_transactions : Bool)
          → ¬ (asking.get_block_by_number number full_transactions ≡ ok none))
        × ((tag : BlockTag) (full_transactions : Bool)
            → ¬ (asking.get_block_by_tag tag full_transactions ≡ ok none))
        × ((hash : B256) → ¬ (asking.get_transaction_receipt hash ≡ ok none))
        × ((hash : B256) → ¬ (asking.get_transaction_by_hash hash ≡ ok none))
    unfolding http_client get_block_by_number get_block_by_tag get_transaction_receipt
        get_transaction_by_hash
    http_client_never_none = (
      λ number full h.
          let (j, e) = ask-ok (λ j. Option.map some (read_block j)) _ none h in
          never_none read_block j e,
      λ tag full h.
          let (j, e) = ask-ok (λ j. Option.map some (read_block j)) _ none h in
          never_none read_block j e,
      λ hash h.
          let (j, e) = ask-ok (λ j. Option.map some (read_receipt j)) _ none h in
          never_none read_receipt j e,
      λ hash h.
          let (j, e) = ask-ok (λ j. Option.map some (read_transaction j)) _ none h in
          never_none read_transaction j e,
    )
