-- ===== src/Decode/Errors.antt =====
-- The errors of src/decode/mod.rs, and the host functions that decoding calls.
use chain_lens.Base.{
  ℕ, Option, none, some, Outcome, ok, panic, ◌≡◌, ◌<◌, ◌≤◌, ◌^◌, ◌-◌, ◌&&◌, leb, length, take, drop,
  if◌then◌else◌,
}
use chain_lens.Domain.{Bytes, B256, U256}

pub data DecodeError : Type 0 where
  missing_block_number missing_block_hash missing_parent_hash : DecodeError
  receipt_count_mismatch : (block_number transactions receipts : ℕ) → DecodeError
  receipt_hash_mismatch : (block_number index : ℕ) (receipt_hash tx_hash : B256) → DecodeError
  log_index_gap : (block_number expected actual position : ℕ) → DecodeError
  missing_tx_hash missing_tx_from missing_receipt_tx_hash : (block_number index : ℕ) → DecodeError
  invalid_erc20_data_length : (log_index length : ℕ) → DecodeError
  invalid_transfer_address : (log_index topic_index : ℕ) → DecodeError

-- What is not in the repository: `U256::from_be_slice`, `U256::to::<usize>` (`none` is a panic), and
-- the greatest capacity for which `Vec::with_capacity` returns.
pub record Host : Type 0 where
  pub from_be_slice : Bytes → U256
  pub to_usize : U256 → Option ℕ
  pub max_capacity : ℕ

-- The documented behaviour of alloy's `U256`: a 64-bit `usize` holds what is below 2^64, and
-- `to_be_bytes` gives the 32 bytes that `from_be_slice` reads back.
pub record HostLaws (h : Host) (to_be_bytes : U256 → Bytes) : Type 0 where
  pub usize_fits : (v : U256) → v < 2 ^ 64 → h.to_usize v ≡ some v
  pub usize_overflows : (v : U256) → 2 ^ 64 ≤ v → h.to_usize v ≡ none
  pub be_length : (v : U256) → length (to_be_bytes v) ≡ 32
  pub be_round_trip : (v : U256) → v < 2 ^ 256 → h.from_be_slice (to_be_bytes v) ≡ v

-- `&bytes[start..end]`, which panics out of range.
unfoldable pub slice : {E : Type 0} → Bytes → ℕ → ℕ → Outcome E Bytes
slice bytes start end =
    if leb start end && leb end (length bytes)
    then ok (take (end - start) (drop start bytes))
    else panic

abbrev pub or_panic : {E A : Type 0} → Option A → Outcome E A
or_panic none = panic
or_panic (some a) = ok a
