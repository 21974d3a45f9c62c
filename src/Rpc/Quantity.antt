-- ===== src/Rpc/Quantity.antt =====
-- Hexadecimal quantities: `parse` of `hex_quantity` in src/rpc/types.rs, and the text that
-- `format!("0x{number:x}")` makes of a block number in src/rpc/http.rs. A text is the list of the
-- codes of its characters; `from_str_radix` and the formatting are those of Rust's library.
pub mod RoundTrip
use mathlib.Core.Path.{subst}
use mathlib.Core.Option.{some-injective, none-ne-some}
use native.Mathlib.Nat.{mod-add-div, pow-suc}
use chain_lens.Base.{
  ap, ◌≢◌, ℕ, zero, suc, ◌+◌, ◌-◌, ◌*◌, ◌/◌, ◌%◌, ◌^◌, ◌≤◌, ◌<◌, ◌≡◌, refl, sym, ◌∙◌, Option, none,
  some, List, [], ◌∷◌, ◌++◌, Bool, true, false, ◌&&◌, ltb, leb, ◌==◌, if◌then◌else◌, Outcome, ok,
  err, ◌>>=◌, arith, inl, inr, Bool-cases, Option-cases,
}
use chain_lens.Domain.{Bytes}

pub data QuantityError : Type 0 where
  missing_prefix invalid_quantity : Bytes → QuantityError

-- The value of the character of a hexadecimal digit.
unfoldable pub to_digit : ℕ → Option ℕ
to_digit c =
    if leb 48 c && leb c 57
    then some (c - 48)
    else if leb 97 c && leb c 102
    then some (c - 87)
    else if leb 65 c && leb c 70
    then some (c - 55)
    else none

-- The digits of `u64::from_str_radix`, which stops at an overflow.
unfoldable pub digits_value : (value : ℕ) → Bytes → Option ℕ
unfolding to_digit
digits_value value [] = some value
digits_value value (c ∷ cs) = elim (to_digit c) [
  | none ↦ none
  | some d ↦
      let next = value * 16 + d in
      let rest = digits_value next cs in if ltb next (2 ^ 64) then rest else none
]

-- A sign may precede the digits, but not stand alone.
unfoldable pub from_str_radix : Bytes → Option ℕ
unfolding digits_value
from_str_radix [] = none
from_str_radix (c ∷ []) = digits_value 0 (c ∷ [])
from_str_radix (c ∷ d ∷ cs) =
    if c == 43 then digits_value 0 (d ∷ cs) else digits_value 0 (c ∷ d ∷ cs)

unfoldable pub parse_digits : Bytes → Bytes → Outcome QuantityError ℕ
unfolding from_str_radix
parse_digits s [] = ok 0
parse_digits s (c ∷ cs) = elim (from_str_radix (c ∷ cs)) [
  | none ↦ err (invalid_quantity s)
  | some n ↦ ok n
]

-- The prefix is "0x".
unfoldable pub parse : Bytes → Outcome QuantityError ℕ
unfolding parse_digits
parse [] = err (missing_prefix [])
parse (a ∷ []) = err (missing_prefix (a ∷ []))
parse (a ∷ b ∷ digits) =
    if a == 48 && b == 120
    then parse_digits (a ∷ b ∷ digits) digits
    else err (missing_prefix (a ∷ b ∷ digits))

-- The character of a digit, in lower case.
unfoldable pub from_digit : ℕ → ℕ
from_digit d = if ltb d 10 then d + 48 else d + 87

-- The digits of a number before `tail`, on fuel: a 64-bit number has 16 of them at most.
unfoldable pub hex_digits : (fuel : ℕ) → ℕ → Bytes → Bytes
unfolding from_digit
hex_digits zero n tail = tail
hex_digits (suc fuel) n tail =
    let rest = hex_digits fuel (n / 16) (from_digit (n % 16) ∷ tail) in
    if ltb n 16 then from_digit n ∷ tail else rest

unfoldable pub format_quantity : ℕ → Bytes
unfolding hex_digits
format_quantity n = 48 ∷ 120 ∷ hex_digits 16 n []
