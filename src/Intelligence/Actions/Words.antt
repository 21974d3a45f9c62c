-- ===== src/Intelligence/Actions/Words.antt =====
-- What src/intelligence/actions.rs reads out of a call in the standard encoding.
use mathlib.Core.Path.{subst}
use mathlib.Core.List.{append-nil, append_assoc}
use chain_lens.Base.{
  ◌≡◌, refl, sym, Option, some, [], ◌∷◌, ◌++◌, leb, true, length, length-append, arith, ok, take,
  text, bytes_eq, take-append,
}
use chain_lens.Domain.{Bytes}
use chain_lens.Decode.Errors.{slice}
use chain_lens.Decode.Erc20.Slices.{slice-append}
use chain_lens.Intelligence.Actions.Selectors.{actions_of, known_call, match_arms, token_arms}
use chain_lens.Intelligence.Actions.{
  erc20_transfer, TransactionAction, Formats, ExplainError, show_address, address_at, amount_at,
  transfer_call, transferred_tokens,
}

-- The encoding of `transfer`: the selector, then the receiver, behind 12 bytes that
-- fill its word, and the amount in 32 bytes.
abbrev pub encoded_transfer : (selector pad to amount : Bytes) → Bytes
encoded_transfer selector pad to amount = selector ++ (pad ++ (to ++ amount))

module _ (fmt : Formats) (selector pad head tail high low : Bytes) (pad_12 : length pad ≡ 12)
    (selector_4 : length selector ≡ 4) (head_12 : length head ≡ 12) (tail_8 : length tail ≡ 8)
    (high_12 : length high ≡ 12) (low_20 : length low ≡ 20) where
  abbrev input : Bytes
  input = encoded_transfer selector pad (head ++ tail) (high ++ low)

  size : length input ≡ 68
  size = omega (
    arith,
    selector_4,
    head_12,
    tail_8,
    high_12,
    low_20,
    length-append selector (pad ++ ((head ++ tail) ++ (high ++ low))),
    length-append pad ((head ++ tail) ++ (high ++ low)),
    pad_12,
    length-append (head ++ tail) (high ++ low),
    length-append head tail,
    length-append high low,
  )

  -- The same bytes, cut where the code cuts them.
  cut_address : (selector ++ pad) ++ ((head ++ (tail ++ high)) ++ low) ≡ input
  cut_address = simp append_assoc

  cut_amount : (selector ++ (pad ++ (head ++ tail))) ++ ((high ++ low) ++ []) ≡ input
  cut_amount = simp (append_assoc, append-nil)

  address_at-encoded : address_at fmt input 16 ≡ ok (show_address fmt (tail ++ high))
  unfolding address_at
  address_at-encoded =
      let first =
        slice-append {E = ExplainError} (selector ++ pad) (head ++ (tail ++ high)) low 16 48
          (omega (arith, pad_12, selector_4, length-append selector pad))
          (omega (
            arith,
            pad_12,
            selector_4,
            head_12,
            tail_8,
            high_12,
            length-append selector pad,
            length-append head (tail ++ high),
            length-append tail high,
          )) in
      let second =
        slice-append {E = ExplainError} head (tail ++ high) [] 12 (length (head ++ (tail ++ high)))
          (sym head_12) (length-append head (tail ++ high)) in
      let read : slice {E = ExplainError} input 16 48 ≡ ok (head ++ (tail ++ high)) =
        subst (λ b. slice {E = ExplainError} b 16 48 ≡ ok (head ++ (tail ++ high))) cut_address
          first in
      let word : slice {E = ExplainError} (head ++ (tail ++ high)) 12
            (length (head ++ (tail ++ high)))
          ≡ ok (tail ++ high) =
        subst
          (λ b.
            slice {E = ExplainError} (head ++ b) 12 (length (head ++ (tail ++ high)))
            ≡ ok (tail ++ high))
          (append-nil (tail ++ high)) second in
      rw (read, word) refl

  amount_at-encoded : amount_at fmt input 36 ≡ ok (fmt.show_u256 (fmt.from_be_slice (high ++ low)))
  unfolding amount_at
  amount_at-encoded =
      let first =
        slice-append {E = ExplainError} (selector ++ (pad ++ (head ++ tail))) (high ++ low) [] 36 68
          (omega (
            arith,
            pad_12,
            selector_4,
            head_12,
            tail_8,
            length-append selector (pad ++ (head ++ tail)),
            length-append pad (head ++ tail),
            length-append head tail,
          ))
          (omega (
            arith,
            pad_12,
            selector_4,
            head_12,
            tail_8,
            high_12,
            low_20,
            length-append selector (pad ++ (head ++ tail)),
            length-append pad (head ++ tail),
            length-append head tail,
            length-append high low,
          )) in
      let read : slice {E = ExplainError} input 36 68 ≡ ok (high ++ low) =
        subst (λ b. slice {E = ExplainError} b 36 68 ≡ ok (high ++ low)) cut_amount first in
      rw read refl

  selector-first : take 4 input ≡ selector
  selector-first =
      subst (λ n. take n input ≡ selector) selector_4
        (take-append selector (pad ++ ((head ++ tail) ++ (high ++ low))))

  -- The call `transfer(to, amount)` of a contract in the standard encoding, whose selector is
  -- a9059cbb, is explained by one action: a transfer of tokens of the contract, from the sender and
  -- of the right amount. As its receiver the explanation names the last 8 bytes of `to` followed by
  -- the first 12 bytes of the amount.
  pub transfer_call-misnames :
      fmt.hex_encode selector ≡ text "a9059cbb"
      → (from_addr contract : Bytes) (to_addr : Option Bytes) (value_str value_eth : Bytes)
      → (a : TransactionAction) × (actions_of fmt from_addr to_addr value_str value_eth input
            (some contract)
          ≡ ok (a ∷ []))
        × (a.action_type ≡ erc20_transfer)
        × (a.from ≡ from_addr)
        × (a.token_address ≡ to_addr)
        × (a.amount ≡ some (fmt.show_u256 (fmt.from_be_slice (high ++ low))))
        × (a.to ≡ some (show_address fmt (tail ++ high)))
  unfolding actions_of known_call match_arms token_arms transfer_call text bytes_eq
  transfer_call-misnames named from_addr contract to_addr value_str value_eth =
      let long : leb 68 (length input) ≡ true = ground (arith, size) in
      let called : leb 4 (length input) ≡ true = ground (arith, size) in
      (
        transferred_tokens fmt from_addr to_addr value_str value_eth input
            (show_address fmt (tail ++ high)) (fmt.show_u256 (fmt.from_be_slice (high ++ low))),
        rw (actions_of, called, selector-first, named)
            (rw (long, address_at-encoded, amount_at-encoded) refl),
        refl,
        refl,
        refl,
        refl,
        refl,
      )
