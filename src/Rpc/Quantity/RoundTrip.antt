-- ===== src/Rpc/Quantity/RoundTrip.antt =====
-- Reading and writing hexadecimal quantities: `hex_quantity::parse` of src/rpc/types.rs.
use mathlib.Core.Path.{subst}
use mathlib.Core.Option.{some-injective, none-ne-some}
use native.Mathlib.Nat.{mod-add-div, pow-suc}
use chain_lens.Base.{
  ap, ◌≢◌, ℕ, zero, suc, ◌+◌, ◌*◌, ◌/◌, ◌%◌, ◌^◌, ◌<◌, ◌≡◌, refl, sym, ◌∙◌, some, [], ◌∷◌, true,
  ◌&&◌, ltb, ◌==◌, ok, arith, inl, inr, Bool-cases, Option-cases,
}
use chain_lens.Domain.{Bytes}
use chain_lens.Rpc.Quantity.{
  to_digit, digits_value, from_str_radix, parse_digits, parse, from_digit, hex_digits,
  format_quantity,
}

to_digit-from_digit : (d : ℕ) → d < 16 → to_digit (from_digit d) ≡ some d
unfolding to_digit from_digit
to_digit-from_digit d h = ground arith

digits_value-hex_digits :
    (fuel n : ℕ) (tail : Bytes)
    → n < 16 ^ fuel
    → n < 2 ^ 64
    → digits_value 0 (hex_digits fuel n tail) ≡ digits_value n tail
unfolding digits_value hex_digits
digits_value-hex_digits zero n tail fits small =
    let is : 0 ≡ n = omega (arith, fits) in ap (λ v. digits_value v tail) is
digits_value-hex_digits (suc fuel) n tail fits small = elim (Bool-cases (ltb n 16)) [
  | inl last ↦ ground (arith, last, small, to_digit-from_digit n (ground arith))
  | inr more ↦
      let before : n / 16 < 16 ^ fuel = omega (arith, fits, pow-suc 16 fuel) in
      let ih =
        digits_value-hex_digits fuel (n / 16) (from_digit (n % 16) ∷ tail) before
          (omega (arith, small)) in
      let digit = to_digit-from_digit (n % 16) (omega arith) in
      let whole : n / 16 * 16 + n % 16 ≡ n = omega (arith, mod-add-div n 16) in
      ground (arith, more, ih, digit, whole, small)
]

from_digit-no_sign : (d : ℕ) → from_digit d ≢ 43
unfolding from_digit
from_digit-no_sign d h = ground (arith, h)

-- The text of a number starts with a digit.
hex_digits-head :
    (fuel n : ℕ) (tail : Bytes)
    → n < 16 ^ suc fuel
    → (c : ℕ) × (rest : Bytes) × (c ≢ 43) × (hex_digits (suc fuel) n tail ≡ c ∷ rest)
unfolding hex_digits
hex_digits-head zero n tail fits =
    let last : ltb n 16 ≡ true = ground (arith, pow-suc 16 zero, fits) in
    (from_digit n, tail, from_digit-no_sign n, ground (arith, last))
hex_digits-head (suc fuel) n tail fits = elim (Bool-cases (ltb n 16)) [
  | inl last ↦ (from_digit n, tail, from_digit-no_sign n, ground (arith, last))
  | inr more ↦
      let before : n / 16 < 16 ^ suc fuel = omega (arith, fits, pow-suc 16 (suc fuel)) in
      let (c, rest, ne, is) = hex_digits-head fuel (n / 16) (from_digit (n % 16) ∷ tail) before in
      (c, rest, ne, rw more is)
]

from_str_radix-digits :
    (c n : ℕ) (cs : Bytes)
    → c ≢ 43
    → digits_value 0 (c ∷ cs) ≡ some n
    → from_str_radix (c ∷ cs) ≡ some n
unfolding from_str_radix
from_str_radix-digits c n [] ne h = h
from_str_radix-digits c n (d ∷ cs) ne h = ground (arith, ne, h)

parse_digits-digits :
    (s digits : Bytes) (c n : ℕ) (cs : Bytes)
    → digits ≡ c ∷ cs
    → c ≢ 43
    → digits_value 0 digits ≡ some n
    → parse_digits s digits ≡ ok n
unfolding parse_digits
parse_digits-digits s digits c n cs is ne h =
    subst (λ ds. parse_digits s ds ≡ ok n) (sym is)
      (ground
        (arith, from_str_radix-digits c n cs ne (subst (λ ds. digits_value 0 ds ≡ some n) is h)))

-- The quantity that a request sends for a block number is read back as that number, for every 64-bit
-- number.
pub parse-format_quantity : (n : ℕ) → n < 2 ^ 64 → parse (format_quantity n) ≡ ok n
unfolding parse format_quantity
parse-format_quantity n small =
    let fits : n < 16 ^ 16 = omega (arith, small) in
    let (c, rest, ne, is) = hex_digits-head 15 n [] fits in
    let value = digits_value-hex_digits 16 n [] fits small in
    parse_digits-digits (48 ∷ 120 ∷ hex_digits 16 n []) (hex_digits 16 n []) c n rest is ne value

-- What is read is a 64-bit number, whatever the text.
digits_value-fits :
    (value : ℕ) (cs : Bytes) {n : ℕ} → value < 2 ^ 64 → digits_value value cs ≡ some n → n < 2 ^ 64
unfolding digits_value
digits_value-fits value [] small h = subst (λ n. n < 2 ^ 64) (some-injective _ _ h) small
digits_value-fits value (c ∷ cs) {n} small h = elim (Option-cases (to_digit c)) [
  | inl nothing ↦ absurd (ground (arith, h))
  | inr (d, is) ↦ elim (Bool-cases (ltb (value * 16 + d) (2 ^ 64))) [
    | inr over ↦ absurd (ground (arith, h))
    | inl within ↦
        digits_value-fits (value * 16 + d) cs (ground arith) (ground (arith, h, is, within))
  ]
]

from_str_radix-fits : (cs : Bytes) {n : ℕ} → from_str_radix cs ≡ some n → n < 2 ^ 64
unfolding from_str_radix
from_str_radix-fits [] h = absurd (none-ne-some _ h)
from_str_radix-fits (c ∷ []) h = digits_value-fits 0 (c ∷ []) (omega arith) h
from_str_radix-fits (c ∷ d ∷ cs) {n} h = elim (Bool-cases (c == 43)) [
  | inl sign ↦ digits_value-fits 0 (d ∷ cs) {n = n} (omega arith) (ground (arith, h, sign))
  | inr digit ↦ digits_value-fits 0 (c ∷ d ∷ cs) {n = n} (omega arith) (ground (arith, h, digit))
]

parse_digits-fits : (s digits : Bytes) {n : ℕ} → parse_digits s digits ≡ ok n → n < 2 ^ 64
unfolding parse_digits
parse_digits-fits s [] h = ground (arith, h)
parse_digits-fits s (c ∷ cs) {n} h = elim (Option-cases (from_str_radix (c ∷ cs))) [
  | inl nothing ↦ absurd (ground (arith, h))
  | inr (m, is) ↦
      let same : m ≡ n = ground (arith, h, is) in
      subst (λ k. k < 2 ^ 64) same (from_str_radix-fits (c ∷ cs) is)
]

-- Whatever the text, what is read is a 64-bit number, and the text starts with "0x".
pub parse-fits :
    (s : Bytes) {n : ℕ}
    → parse s ≡ ok n
    → (n < 2 ^ 64) × ((digits : Bytes) × (s ≡ 48 ∷ 120 ∷ digits))
unfolding parse
parse-fits [] h = absurd (ground (arith, h))
parse-fits (a ∷ []) h = absurd (ground (arith, h))
parse-fits (a ∷ b ∷ digits) {n} h = elim (Bool-cases (a == 48 && b == 120)) [
  | inr other ↦ absurd (ground (arith, h))
  | inl prefix ↦
      let first : a ≡ 48 = ground (arith, prefix) in
      let second : b ≡ 120 = ground (arith, prefix) in
      let read : parse_digits (a ∷ b ∷ digits) digits ≡ ok n = ground (arith, h, prefix) in
      (
        parse_digits-fits (a ∷ b ∷ digits) digits read,
        (
          digits,
          subst (λ c. a ∷ b ∷ digits ≡ a ∷ c ∷ digits) second refl
              ∙ ap (λ c. c ∷ 120 ∷ digits) first,
        ),
      )
]
