-- ===== src/Tests/Data.antt =====
-- A host with the behaviour that alloy documents, and a chain that a client serves.
use native.Mathlib.Nat.{mod-add-div, pow-suc}
use chain_lens.Base.{
  ℕ, zero, suc, ◌+◌, ◌*◌, ◌/◌, ◌%◌, ◌^◌, ◌<◌, ◌≡◌, ◌∙◌, refl, none, some, [], ◌∷◌, ◌++◌,
  if◌then◌else◌, ltb, length, length-append, arith, replicate, true, ok,
}
use chain_lens.Domain.{Bytes, U256}
use chain_lens.Rpc.{EthClient, BlockResponse}
use chain_lens.Decode.Errors.{Host, HostLaws}
use chain_lens.Store.Db.{Db}

-- The lowest `k` bytes of a number, the highest of them first.
abbrev be : ℕ → ℕ → Bytes
be zero v = []
be (suc k) v = be k (v / 256) ++ v % 256 ∷ []

abbrev pub to_be_bytes : U256 → Bytes
to_be_bytes v = be 32 v

abbrev value_of : ℕ → Bytes → ℕ
value_of acc [] = acc
value_of acc (b ∷ bs) = value_of (acc * 256 + b) bs

value_of-append : (acc b : ℕ) (bs : Bytes) → value_of acc (bs ++ b ∷ []) ≡ value_of acc bs * 256 + b
value_of-append acc b [] = refl
value_of-append acc b (c ∷ bs) = value_of-append (acc * 256 + c) b bs

value_of-be : (k v : ℕ) → v < 256 ^ k → value_of 0 (be k v) ≡ v
value_of-be zero v h = omega (arith, h)
value_of-be (suc k) v h =
    let small : v / 256 < 256 ^ k = omega (arith, h, pow-suc 256 k) in
    value_of-append 0 (v % 256) (be k (v / 256))
    ∙ omega (arith, value_of-be k (v / 256) small, mod-add-div v 256)

length-be : (k v : ℕ) → length (be k v) ≡ k
length-be zero v = refl
length-be (suc k) v =
    omega (arith, length-append (be k (v / 256)) (v % 256 ∷ []), length-be k (v / 256))

abbrev pub host : Host
host = record {
  from_be_slice = value_of 0;
  to_usize = λ v. if ltb v (2 ^ 64) then some v else none;
  max_capacity = 1000;
}

pub host-HostLaws : HostLaws host to_be_bytes
host-HostLaws = record {
  usize_fits = λ v h. ground arith;
  usize_overflows = λ v h. ground arith;
  be_length = length-be 32;
  be_round_trip = λ v h. value_of-be 32 v h;
}

-- Empty blocks, linked by their hashes.
abbrev pub chain : ℕ → BlockResponse
chain n = record {
  number = n;
  hash = (n + 1) ∷ [];
  parent_hash = n ∷ [];
  timestamp = 12 * n;
  miner = replicate 20 0;
  gas_used = 0;
  gas_limit = 30000000;
  base_fee_per_gas = some 7;
  transactions = [];
  size = 500;
}

abbrev pub client : EthClient
client = record {
  get_block_by_number = λ n _. ok (some (chain n));
  get_block_by_tag = λ _ _. ok (some (chain 100));
  get_block_number = λ _. ok 100;
  get_block_receipts = λ _. ok [];
  get_transaction_receipt = λ _. ok none;
  supports_block_receipts = true;
  get_transaction_by_hash = λ _. ok none;
  get_logs_for_transaction = λ _. ok [];
}

-- The database of the migrations, before the first block, and one whose cursor stands at a block.
abbrev pub fresh_db : Db
fresh_db = record {
  blocks = [];
  transactions = [];
  logs = [];
  token_transfers = [];
  address_transactions = [];
  last_indexed_number = none;
  last_indexed_hash = none;
  reorgs = [];
  anomalies = [];
  mev_events = [];
  block_analytics = [];
  transaction_actions = [];
  address_stats = [];
  contract_profiles = [];
}

abbrev pub db_at : ℕ → Bytes → Db
db_at n hash = record fresh_db { last_indexed_number = some n; last_indexed_hash = some hash }
