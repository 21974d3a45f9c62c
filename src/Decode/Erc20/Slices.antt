-- ===== src/Decode/Erc20/Slices.antt =====
-- Slices of byte strings at known positions, and sums of positions that do not wrap.
use mathlib.Core.List.{append-nil}
use native.Mathlib.Nat.{mod-eq_of_lt}
use chain_lens.Base.{
  ◌-◌, ℕ, ◌+◌, ◌*◌, ◌^◌, ◌<◌, ◌≡◌, refl, ap, ◌∙◌, [], ◌≤◌, ◌++◌, ok, length, length-append, take,
  drop, drop-append, take-append, replicate, arith, some,
}
use chain_lens.Domain.{Bytes, B256, Address}
use chain_lens.Decode.Errors.{DecodeError, slice}
use chain_lens.Decode.Erc20.{usize_add, usize_mul, extract_address_from_topic}

pub usize_add_small : (a b : ℕ) → a + b < 2 ^ 64 → usize_add a b ≡ a + b
unfolding usize_add
usize_add_small a b h = omega arith

pub usize_mul_small : (a b : ℕ) → a * b < 2 ^ 64 → usize_mul a b ≡ a * b
unfolding usize_mul
usize_mul_small a b h = mod-eq_of_lt h

pub slice_lem :
    {E : Type 0} (bytes : Bytes) (s e : ℕ)
    → s ≤ e
    → e ≤ length bytes
    → slice {E = E} bytes s e ≡ ok (take (e - s) (drop s bytes))
unfolding slice
slice_lem bytes s e h k = ground arith

-- A slice at the position of `mid` is `mid`.
pub slice-append :
    {E : Type 0} (pre mid post : Bytes) (s e : ℕ)
    → s ≡ length pre
    → e ≡ length pre + length mid
    → slice {E = E} (pre ++ (mid ++ post)) s e ≡ ok mid
slice-append {E} pre mid post s e hs he =
    let size : length (pre ++ (mid ++ post)) ≡ length pre + (length mid + length post) =
      omega (arith, length-append pre (mid ++ post), length-append mid post) in
    let width : length pre + length mid - length pre ≡ length mid = omega arith in
    rw (hs, he)
      (slice_lem {E = E} (pre ++ (mid ++ post)) (length pre) (length pre + length mid) (omega arith)
          (omega arith)
        ∙ ap ok (rw (width, drop-append pre (mid ++ post)) (take-append mid post)))

-- The topic of an indexed address: twelve zero bytes, then the address.
unfoldable pub address_topic : Address → B256
address_topic a = replicate 12 0 ++ a

pub extract-address_topic :
    (a : Address) (log_index topic_index : ℕ)
    → length a ≡ 20
    → extract_address_from_topic (some (address_topic a)) log_index topic_index ≡ ok a
unfolding extract_address_from_topic address_topic
extract-address_topic a i j h =
    let split : replicate 12 0 ++ (a ++ []) ≡ replicate 12 0 ++ a =
      ap (λ t. replicate 12 0 ++ t) (append-nil a) in
    rw (← split) (slice-append {E = DecodeError} (replicate 12 0) a [] 12 32 refl (omega arith))
