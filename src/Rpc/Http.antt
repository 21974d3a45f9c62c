-- ===== src/Rpc/Http.antt =====
-- The client of src/rpc/http.rs. The transport and what serde makes of a JSON value are
-- parameters: a field of type `Option` that is absent or `null` is `None`, whatever the type in it.
pub mod Missing
use mathlib.Core.Option
use chain_lens.Base.{
  ℕ, zero, suc, Option, none, some, List, [], Bool, true, false, ◌&&◌, leb, if◌then◌else◌, Outcome,
  ok, err, panic, ◌>>=◌, ok_or, unwrap_or,
}
use chain_lens.Domain.{B256}
use chain_lens.Rpc.{
  Message, BlockTag, latest, RpcError, http, json_rpc, timeout, connection, deserialize,
  BlockResponse, TransactionResponse, LogResponse, ReceiptResponse, EthClient,
}
use chain_lens.Rpc.Retry.{RetryPolicy, call}

-- A JSON value; `J` has those that are not `null`.
pub data Json (J : Type 0) : Type 0 where
  null : Json J
  value : J → Json J

pub record JsonRpcError : Type 0 where
  pub negative : Bool
  pub code : ℕ
  pub message : Message

-- The fields of the body, as they stand in it.
pub record Body (J : Type 0) : Type 0 where
  pub result : Option (Json J)
  pub error : Option JsonRpcError

-- What a request ends with; `parsed` is `none` for a body that is no JSON-RPC response.
pub data Reply (J : Type 0) : Type 0 where
  timed_out : Reply J
  unreachable : Message → Reply J
  answered : (status : ℕ) (body_text : Message) (parsed : Option (Body J)) → Reply J

pub data Request : Type 0 where
  block_by_number : ℕ → (full_transactions : Bool) → Request
  block_by_tag : BlockTag → (full_transactions : Bool) → Request
  block_receipts : ℕ → Request
  transaction_receipt transaction_by_hash : B256 → Request

-- The texts of the errors that `execute_once` and `get_block_number` make.
pub record Texts : Type 0 where
  pub unreadable : Message
  pub missing_result : Message
  pub null_tag : BlockTag → Message

unfoldable pub is_success : ℕ → Bool
is_success status = leb 200 status && leb status 299

module _ {J : Type 0} (texts : Texts) where
  -- `Option<T>` out of the field `result`; the outer `none` is an error of serde.
  unfoldable pub read_result : {T : Type 0} → (J → Option T) → Option (Json J) → Option (Option T)
  read_result read none = some none
  read_result read (some null) = some none
  read_result read (some (value j)) = Option.map some (read j)

  -- After the body has been read: `error` comes first, then `result` has to be there.
  unfoldable pub result_of : {T : Type 0} → (J → Option T) → Body J → Outcome RpcError T
  unfolding read_result
  result_of read body = do
    result ← ok_or (read_result read body.result) (deserialize texts.unreadable)
    elim body.error [
      | some e ↦ err (json_rpc e.negative e.code e.message)
      | none ↦ ok_or result (deserialize texts.missing_result)
    ]

  unfoldable pub execute_once : {T : Type 0} → (J → Option T) → Reply J → Outcome RpcError T
  unfolding is_success result_of
  execute_once read timed_out = err timeout
  execute_once read (unreachable message) = err (connection message)
  execute_once read (answered status body_text parsed) =
      if is_success status
      then (do body ← ok_or parsed (deserialize texts.unreadable); result_of read body)
      else err (http status body_text)

  module _ (policy : RetryPolicy) (gen_range : ℕ → ℕ → ℕ → ℕ) (send : Request → ℕ → Reply J)
      (read_block : J → Option BlockResponse) (read_receipt : J → Option ReceiptResponse)
      (read_receipts : J → Option (List ReceiptResponse))
      (read_transaction : J → Option TransactionResponse) where
    -- `self.call(…)`, for a type of answers that serde reads with `read`.
    unfoldable pub ask : {T : Type 0} → (J → Option T) → Request → Outcome RpcError T
    unfolding execute_once call
    ask read request =
        (call policy gen_range (λ attempt. execute_once read (send request attempt))).1

    -- The type `Option<BlockResponse>` as the answer.
    unfoldable pub get_block_by_number : ℕ → Bool → Outcome RpcError (Option BlockResponse)
    unfolding ask
    get_block_by_number number full_transactions =
        ask (λ j. Option.map some (read_block j)) (block_by_number number full_transactions)

    unfoldable pub get_block_by_tag : BlockTag → Bool → Outcome RpcError (Option BlockResponse)
    unfolding ask
    get_block_by_tag tag full_transactions =
        ask (λ j. Option.map some (read_block j)) (block_by_tag tag full_transactions)

    unfoldable pub get_block_number : BlockTag → Outcome RpcError ℕ
    unfolding ask
    get_block_number tag = do
      block ← ask (λ j. Option.map some (read_block j)) (block_by_tag tag false)
      ok_or (Option.map (λ (b : BlockResponse). b.number) block) (deserialize (texts.null_tag tag))

    unfoldable pub get_block_receipts : ℕ → Outcome RpcError (List ReceiptResponse)
    unfolding ask
    get_block_receipts number = ask read_receipts (block_receipts number)

    unfoldable pub get_transaction_receipt : B256 → Outcome RpcError (Option ReceiptResponse)
    unfolding ask
    get_transaction_receipt hash =
        ask (λ j. Option.map some (read_receipt j)) (transaction_receipt hash)

    unfoldable pub get_transaction_by_hash : B256 → Outcome RpcError (Option TransactionResponse)
    unfolding ask
    get_transaction_by_hash hash =
        ask (λ j. Option.map some (read_transaction j)) (transaction_by_hash hash)

    unfoldable pub get_logs_for_transaction : B256 → Outcome RpcError (List LogResponse)
    unfolding get_transaction_receipt
    get_logs_for_transaction tx_hash = do
      receipt ← get_transaction_receipt tx_hash
      ok (unwrap_or (Option.map (λ (r : ReceiptResponse). r.logs) receipt) [])

    -- `probe_block_receipts`, which sets `supports_block_receipts` once, in `new`.
    unfoldable pub probe_block_receipts : Bool
    unfolding get_block_number get_block_receipts
    probe_block_receipts = elim (get_block_number latest) [
      | ok block_number ↦ elim (get_block_receipts block_number) [
        | ok _ ↦ true
        | err _ ↦ false
        | panic ↦ false
      ]
      | err _ ↦ false
      | panic ↦ false
    ]

    unfoldable pub http_client : EthClient
    unfolding get_block_by_number get_block_number get_block_receipts get_transaction_receipt
        probe_block_receipts get_block_by_tag get_transaction_by_hash get_logs_for_transaction
    http_client = record {
      get_block_by_number = get_block_by_number;
      get_block_by_tag = get_block_by_tag;
      get_block_number = get_block_number;
      get_block_receipts = get_block_receipts;
      get_transaction_receipt = get_transaction_receipt;
      supports_block_receipts = probe_block_receipts;
      get_transaction_by_hash = get_transaction_by_hash;
      get_logs_for_transaction = get_logs_for_transaction;
    }
