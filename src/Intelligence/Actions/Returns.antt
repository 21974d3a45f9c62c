-- ===== src/Intelligence/Actions/Returns.antt =====
-- What the arms of the `match` in src/intelligence/actions.rs return.
use Prim.Native.String.{String}
use chain_lens.Base.{
  ℕ, ◌+◌, ◌*◌, ◌≤◌, ◌<◌, ◌≡◌, refl, Option, none, some, List, [], ◌∷◌, true, leb, length,
  length-append, ◌-◌, length-take, length-drop, take, drop, arith, Bool-cases, bytes_eq,
  bytes_eq_iff, text, ok, panic, All, inl, inr,
}
use chain_lens.Domain.{Bytes}
use chain_lens.Decode.Errors.{slice}
use chain_lens.Decode.Erc20.Slices.{slice_lem}
use chain_lens.Intelligence.Actions.{
  TransactionAction, Formats, ExplainError, Actions, show_address, address_at, amount_at,
  transferred_tokens, approved_spending, transferred_nft, transfer_call, approve_call,
  transfer_from_call,
}
use chain_lens.Intelligence.Actions.Selectors.{match_arms}

-- A text of which the summary can show the first ten characters.
abbrev pub Long : Option Bytes → Type 0
Long none = Unit
Long (some s) = 10 ≤ length s

abbrev pub Shaped : List TransactionAction → Type 0
Shaped actions = (length actions ≤ 1) × All (λ a. Long a.to × Long a.spender) actions

abbrev pub Returns : Actions → Type 0
Returns o = (actions : List TransactionAction) × (o ≡ ok actions) × Shaped actions

-- The call that is read past its end.
abbrev pub Overread : Bytes → Type 0
Overread input = (100 ≤ length input) × (length input < 112)

-- Whichever arm is taken, one that is taken returns.
pub match_arms-Returns :
    (selector_hex : Bytes) (arms : List (String × Actions)) (other : Actions)
    → All (λ arm. selector_hex ≡ text arm.0 → Returns arm.1) arms
    → Returns other
    → Returns (match_arms selector_hex arms other)
unfolding match_arms
match_arms-Returns selector_hex [] other each r = r
match_arms-Returns selector_hex ((literal, arm) ∷ arms) other each r =
    elim (Bool-cases (bytes_eq selector_hex (text literal))) [
      | inl same ↦ rw same (each.0 ((bytes_eq_iff selector_hex (text literal)).0 same))
      | inr different ↦ rw different (match_arms-Returns selector_hex arms other each.1 r)
    ]

slice-total :
    {E : Type 0} (bytes : Bytes) (s e : ℕ)
    → s ≤ e
    → e ≤ length bytes
    → (r : Bytes) × (slice {E = E} bytes s e ≡ ok r) × (s + length r ≡ e)
slice-total bytes s e h k = (
  take (e - s) (drop s bytes),
  slice_lem bytes s e h k,
  omega (arith, h, k, length-take (e - s) (drop s bytes), length-drop s bytes),
)

slice-panic :
    {E : Type 0} (bytes : Bytes) (s e : ℕ) → length bytes < e → slice {E = E} bytes s e ≡ panic
unfolding slice
slice-panic bytes s e h = ground arith

module _ (fmt : Formats) (two_digits : (b : Bytes) → length (fmt.hex_encode b) ≡ 2 * length b) where
  pub show_address-Long : (b : Bytes) → 4 ≤ length b → 10 ≤ length (show_address fmt b)
  unfolding show_address text
  show_address-Long b h =
      omega (arith, h, two_digits b, length-append (text "0x") (fmt.hex_encode b))

  address_at-returns :
      (input : Bytes) (offset : ℕ)
      → offset + 32 ≤ length input
      → (a : Bytes) × (address_at fmt input offset ≡ ok a) × (10 ≤ length a)
  unfolding address_at
  address_at-returns input offset h =
      let (word, found, size) =
        slice-total {E = ExplainError} input offset (offset + 32) (omega arith) h in
      let (bytes, rest, tail) =
        slice-total {E = ExplainError} word 12 (length word) (omega (arith, size)) (omega arith) in
      (
        show_address fmt bytes,
        rw (found, rest) refl,
        show_address-Long bytes (omega (arith, size, tail)),
      )

  pub amount_at-returns :
      (input : Bytes) (offset : ℕ)
      → offset + 32 ≤ length input
      → (a : Bytes) × (amount_at fmt input offset ≡ ok a)
  unfolding amount_at
  amount_at-returns input offset h =
      let (word, found, _) =
        slice-total {E = ExplainError} input offset (offset + 32) (omega arith) h in
      (fmt.show_u256 (fmt.from_be_slice word), rw found refl)

  amount_at-panics :
      (input : Bytes) (offset : ℕ) → length input < offset + 32 → amount_at fmt input offset ≡ panic
  unfolding amount_at
  amount_at-panics input offset h =
      let past = slice-panic {E = ExplainError} input offset (offset + 32) h in rw past refl

  module _ (from_addr : Bytes) (to_addr : Option Bytes) (value_str value_eth input : Bytes)
      (from_Long : 10 ≤ length from_addr) (to_Long : Long to_addr) where
    pub transfer_call-Returns :
        Returns (transfer_call fmt from_addr to_addr value_str value_eth input)
    unfolding transfer_call
    transfer_call-Returns = elim (Bool-cases (leb 68 (length input))) [
      | inr few ↦ ([], rw few refl, (omega arith, tt))
      | inl room ↦
          let (to, found, size) = address_at-returns input 16 (ground (arith, room)) in
          let (amount, read) = amount_at-returns input 36 (ground (arith, room)) in
          (
            transferred_tokens fmt from_addr to_addr value_str value_eth input to amount ∷ [],
            rw (room, found, read) refl,
            (omega arith, ((size, tt), tt)),
          )
    ]

    pub approve_call-Returns :
        Returns (approve_call fmt from_addr to_addr value_str value_eth input)
    unfolding approve_call
    approve_call-Returns = elim (Bool-cases (leb 68 (length input))) [
      | inr few ↦ ([], rw few refl, (omega arith, tt))
      | inl room ↦
          let (spender, found, size) = address_at-returns input 16 (ground (arith, room)) in
          (
            approved_spending fmt from_addr to_addr value_str value_eth input spender ∷ [],
            rw (room, found) refl,
            (omega arith, ((to_Long, size), tt)),
          )
    ]

    pub transfer_from_call-Returns :
        ¬ Overread input
        → Returns (transfer_from_call fmt from_addr to_addr value_str value_eth input)
    unfolding transfer_from_call
    transfer_from_call-Returns enough = elim (Bool-cases (leb 100 (length input))) [
      | inr few ↦ ([], rw few refl, (omega arith, tt))
      | inl room ↦
          let wide : 112 ≤ length input = elim (Bool-cases (leb 112 (length input))) [
            | inl long ↦ ground (arith, long)
            | inr short ↦ absurd (enough (ground (arith, room), ground (arith, short)))
          ] in
          let (from, found, _) = address_at-returns input 16 (omega (arith, wide)) in
          let (to, found', size) = address_at-returns input 48 (omega (arith, wide)) in
          let (token_id, read) = amount_at-returns input 80 wide in
          (
            transferred_nft fmt from_addr to_addr value_str value_eth input from to token_id ∷ [],
            rw (room, found, found', read) refl,
            (omega arith, ((size, tt), tt)),
          )
    ]

    pub transfer_from_call-panics :
        Overread input → transfer_from_call fmt from_addr to_addr value_str value_eth input ≡ panic
    unfolding transfer_from_call
    transfer_from_call-panics over =
        let room : leb 100 (length input) ≡ true = ground (arith, over.0) in
        let (from, found, _) = address_at-returns input 16 (omega (arith, over.0)) in
        let (to, found', _) = address_at-returns input 48 (omega (arith, over.0)) in
        rw (room, found, found', past) refl
      where
        past : amount_at fmt input 80 ≡ panic
        past = amount_at-panics input 80 over.1
