-- ===== src/Intelligence/Actions/Arms.antt =====
-- Every arm of the `match` in src/intelligence/actions.rs, and the whole of it.
use chain_lens.Base.{
  not, ◌*◌, ◌≤◌, ◌≡◌, refl, Option, [], ◌∷◌, leb, length, arith, Bool-cases, bytes_eq, text, ok,
  panic, All, inl, inr,
}
use chain_lens.Domain.{Bytes}
use chain_lens.Intelligence.Actions.{ActionType, Formats, called, transferred_eth}
use chain_lens.Intelligence.Actions.Selectors.{
  match_arms, delegatecall, withdraw_call, mint_call, other_call, token_arms, swap_arms,
  protocol_arms, known_call,
}
use chain_lens.Intelligence.Actions.Returns.{
  Long, Returns, match_arms-Returns, amount_at-returns, Overread, transfer_call-Returns,
  approve_call-Returns, transfer_from_call-Returns, transfer_from_call-panics,
}

module _ (fmt : Formats) (two_digits : (b : Bytes) → length (fmt.hex_encode b) ≡ 2 * length b) where
  module _ (from_addr : Bytes) (to_addr : Option Bytes) (value_str value_eth input : Bytes)
      (from_Long : 10 ≤ length from_addr) (to_Long : Long to_addr) where
    -- An action of a known method: between the sender and the contract.
    called-Returns :
        (kind : ActionType) (value amount : Option Bytes) (description : Bytes)
        → Returns (
            ok (
              called fmt from_addr to_addr value_str value_eth input kind value amount description))
    unfolding called
    called-Returns kind value amount description = (
      called fmt from_addr to_addr value_str value_eth input kind value amount description,
      refl,
      (omega arith, ((to_Long, tt), tt)),
    )

    withdraw_call-Returns : Returns (withdraw_call fmt from_addr to_addr value_str value_eth input)
    unfolding withdraw_call
    withdraw_call-Returns = elim (Bool-cases (leb 36 (length input))) [
      | inr few ↦ ([], rw few refl, (omega arith, tt))
      | inl room ↦
          let (amount, read) = amount_at-returns fmt two_digits input 4 (ground (arith, room)) in
          rw (room, read) (called-Returns _ _ _ _)
    ]

    mint_call-Returns : Returns (mint_call fmt from_addr to_addr value_str value_eth input)
    unfolding mint_call
    mint_call-Returns = elim (Bool-cases (leb 36 (length input))) [
      | inr few ↦ ([], rw few refl, (omega arith, tt))
      | inl room ↦
          let (amount, read) = amount_at-returns fmt two_digits input 4 (ground (arith, room)) in
          rw (room, read) (called-Returns _ _ _ _)
    ]

    other_call-Returns : Returns (ok (other_call fmt from_addr to_addr value_str value_eth input))
    unfolding other_call transferred_eth called
    other_call-Returns = elim (Bool-cases (not (bytes_eq value_str (text "0")))) [
      | inl paid ↦ rw paid (
        transferred_eth fmt from_addr to_addr value_str value_eth input ∷ [],
        refl,
        (omega arith, ((to_Long, tt), tt)),
      )
      | inr free ↦ rw free (called-Returns _ _ _ _)
    ]

    swap_arms-Returns :
        (selector_hex : Bytes)
        → All
            (λ arm. selector_hex ≡ text arm.0 → Returns arm.1)
            (swap_arms fmt from_addr to_addr value_str value_eth input)
    unfolding swap_arms
    swap_arms-Returns selector_hex = (
      λ _. called-Returns _ _ _ _,
      (
        λ _. called-Returns _ _ _ _,
        (
          λ _. called-Returns _ _ _ _,
          (
            λ _. called-Returns _ _ _ _,
            (
              λ _. called-Returns _ _ _ _,
              (
                λ _. called-Returns _ _ _ _,
                (
                  λ _. called-Returns _ _ _ _,
                  (
                    λ _. called-Returns _ _ _ _,
                    (
                      λ _. called-Returns _ _ _ _,
                      (λ _. called-Returns _ _ _ _, (λ _. withdraw_call-Returns, tt)),
                    ),
                  ),
                ),
              ),
            ),
          ),
        ),
      ),
    )

    protocol_arms-Returns :
        (selector_hex : Bytes)
        → All
            (λ arm. selector_hex ≡ text arm.0 → Returns arm.1)
            (protocol_arms fmt from_addr to_addr value_str value_eth input)
    unfolding protocol_arms
    protocol_arms-Returns selector_hex = (
      λ _. called-Returns _ _ _ _,
      (
        λ _. mint_call-Returns,
        (
          λ _. called-Returns _ _ _ _,
          (
            λ _. called-Returns _ _ _ _,
            (
              λ _. called-Returns _ _ _ _,
              (
                λ _. called-Returns _ _ _ _,
                (
                  λ _. called-Returns _ _ _ _,
                  (
                    λ _. called-Returns _ _ _ _,
                    (
                      λ _. (
                        delegatecall fmt from_addr to_addr value_str value_eth input,
                        refl,
                        (omega arith, ((to_Long, tt), tt)),
                      ),
                      tt,
                    ),
                  ),
                ),
              ),
            ),
          ),
        ),
      ),
    )

    pub known_call-Returns :
        (selector_hex : Bytes)
        → ¬ ((selector_hex ≡ text "23b872dd") × Overread input)
        → Returns (known_call fmt from_addr to_addr value_str value_eth input selector_hex)
    unfolding known_call token_arms
    known_call-Returns selector_hex enough =
        match_arms-Returns selector_hex (token_arms fmt from_addr to_addr value_str value_eth input)
          _
          (
            λ _.
                (transfer_call-Returns fmt two_digits from_addr to_addr value_str value_eth input
                  from_Long to_Long),
            (
              λ _.
                  (approve_call-Returns fmt two_digits from_addr to_addr value_str value_eth input
                    from_Long to_Long),
              (
                λ same.
                    (transfer_from_call-Returns fmt two_digits from_addr to_addr value_str value_eth
                        input from_Long to_Long)
                      (λ over. enough (same, over)),
                tt,
              ),
            ),
          )
          (match_arms-Returns selector_hex
            (swap_arms fmt from_addr to_addr value_str value_eth input) _
            (swap_arms-Returns selector_hex)
            (match_arms-Returns selector_hex
              (protocol_arms fmt from_addr to_addr value_str value_eth input) _
              (protocol_arms-Returns selector_hex) other_call-Returns))

    pub known_call-panics :
        Overread input
        → known_call fmt from_addr to_addr value_str value_eth input (text "23b872dd") ≡ panic
    unfolding known_call token_arms match_arms text bytes_eq
    known_call-panics over =
        (transfer_from_call-panics fmt two_digits from_addr to_addr value_str value_eth input
            from_Long to_Long)
          over
