-- ===== src/Intelligence/Actions/Panics.antt =====
-- When `explain_transaction` of src/intelligence/actions.rs returns, and what.
use mathlib.Core.Option
use chain_lens.Base.{
  ◌*◌, ◌≤◌, ◌≡◌, refl, ◌↔◌, ◌⊎◌, inl, inr, Option, none, some, List, [], ◌∷◌, map, true, false, leb,
  ltb, not, ◌&&◌, length, take, arith, Bool-cases, bytes_eq, bytes_eq_iff, text, trim_0x, is_none,
  is_empty, Outcome, ok, panic, In, Nodup, ℤ,
}
use chain_lens.Domain.{Bytes}
use chain_lens.Intelligence.Actions.{
  TransactionAction, Formats, ExplainError, show_address, creation, transferred_eth,
}
use chain_lens.Intelligence.Actions.Selectors.{actions_of}
use chain_lens.Intelligence.Actions.Explain.{
  TransactionExplanation, TxRow, wei_to_eth, explanation, explain_transaction,
}
use chain_lens.Intelligence.Actions.Returns.{Long, Returns, Overread, show_address-Long}
use chain_lens.Intelligence.Actions.Arms.{known_call-Returns, known_call-panics}
use chain_lens.Intelligence.Actions.Summary.{involve-Nodup, involve-In, build_summary-Total}

-- A call of `transferFrom` that is shorter than what is read of it.
abbrev pub Misread : Formats → TxRow → Type 0
Misread fmt tx =
    (is_none tx.to_addr ≡ false)
    × (fmt.hex_encode (take 4 tx.input) ≡ text "23b872dd")
    × Overread tx.input

Misread-cases : (fmt : Formats) (tx : TxRow) → Misread fmt tx ⊎ ¬ Misread fmt tx
Misread-cases fmt tx =
    let named = bytes_eq_iff (fmt.hex_encode (take 4 tx.input)) (text "23b872dd") in
    elim (Bool-cases (is_none tx.to_addr)) [
      | inl created ↦ inr (λ m. ground (arith, created, m.0))
      | inr call ↦
          elim (Bool-cases (bytes_eq (fmt.hex_encode (take 4 tx.input)) (text "23b872dd"))) [
            | inr other ↦ inr (λ m. ground (arith, other, named.1 m.1))
            | inl same ↦
                elim (Bool-cases (leb 100 (length tx.input) && ltb (length tx.input) 112)) [
                  | inl over ↦
                      inl (call, named.0 same, (ground (arith, over), ground (arith, over)))
                  | inr fits ↦ inr (λ m. ground (arith, fits, m.2.0, m.2.1))
                ]
          ]
    ]

not_empty : (b : Bytes) → 4 ≤ length b → is_empty b ≡ false
not_empty [] h = absurd (omega (arith, h))
not_empty (x ∷ b) h = refl

module _ (fmt : Formats) (two_digits : (b : Bytes) → length (fmt.hex_encode b) ≡ 2 * length b)
    (tx : TxRow) (from_20 : length tx.from_addr ≡ 20)
    (to_20 : (b : Bytes) → tx.to_addr ≡ some b → length b ≡ 20) where
  from_Long : 10 ≤ length (show_address fmt tx.from_addr)
  from_Long = show_address-Long fmt two_digits tx.from_addr (omega (arith, from_20))

  to_Long : Long (Option.map (show_address fmt) tx.to_addr)
  to_Long = go tx.to_addr to_20
    where
      go :
          (o : Option Bytes)
          → ((b : Bytes) → o ≡ some b → length b ≡ 20)
          → Long (Option.map (show_address fmt) o)
      go none h = tt
      go (some b) h = show_address-Long fmt two_digits b (omega (arith, h b refl))

  abbrev the_actions : Outcome ExplainError (List TransactionAction)
  the_actions =
      actions_of fmt (show_address fmt tx.from_addr) (Option.map (show_address fmt) tx.to_addr)
        tx.value (wei_to_eth fmt tx.value) tx.input tx.to_addr

  actions_of-Returns : ¬ Misread fmt tx → Returns the_actions
  unfolding actions_of creation transferred_eth
  actions_of-Returns read = elim (Bool-cases (is_none tx.to_addr && not (is_empty tx.input))) [
    | inl created ↦ rw created (_, refl, (omega arith, ((tt, tt), tt)))
    | inr other ↦ elim (Bool-cases (leb 4 (length tx.input))) [
      | inl call ↦
          rw (other, call)
            (known_call-Returns fmt two_digits _ _ _ _ _ from_Long to_Long _ (λ (same, over).
              let full = not_empty tx.input (ground (arith, call)) in
              read (ground (arith, other, full), same, over)))
      | inr short ↦ elim (Bool-cases (not (bytes_eq tx.value (text "0")))) [
        | inl paid ↦ rw (other, short, paid) (_, refl, (omega arith, ((to_Long, tt), tt)))
        | inr free ↦ rw (other, short, free) ([], refl, (omega arith, tt))
      ]
    ]
  ]

  actions_of-panics : Misread fmt tx → the_actions ≡ panic
  unfolding actions_of
  actions_of-panics (is_call, same, over) =
      let full : leb 4 (length tx.input) ≡ true = ground (arith, over.0) in
      rw (is_call, full, same) (known_call-panics fmt two_digits _ _ _ _ _ from_Long to_Long over)

  module _ (find_tx : Bytes → Option TxRow) (log_addresses : ℤ → Bytes → List Bytes)
      (tx_hash hash_bytes : Bytes) (decoded : fmt.hex_decode (trim_0x tx_hash) ≡ some hash_bytes)
      (found : find_tx hash_bytes ≡ some tx) where
    abbrev logs : List Bytes
    logs = map (show_address fmt) (log_addresses tx.block_number hash_bytes)

    -- Given two hexadecimal digits for each byte: a transaction that is found under its hash,
    -- between addresses of 20 bytes, other than a call of `transferFrom` with 100 to 111 bytes of
    -- input, is explained: by at most one action, and with the addresses of its logs, each once, as
    -- the contracts.
    pub explain_transaction-returns :
        ¬ Misread fmt tx
        → (e : TransactionExplanation) × (explain_transaction fmt find_tx log_addresses tx_hash
            ≡ ok e)
          × (length e.actions ≤ 1)
          × Nodup e.contracts_involved
          × ((b : Bytes) → In b e.contracts_involved ↔ In b logs)
    unfolding explain_transaction explanation
    explain_transaction-returns read =
        let (actions, acted, shaped) = actions_of-Returns read in
        let (summary, summed) =
          build_summary-Total (show_address fmt tx.from_addr) (wei_to_eth fmt tx.value)
            (Option.map (show_address fmt) tx.to_addr) from_Long to_Long actions shaped in
        (
          explanation fmt tx_hash tx actions (log_addresses tx.block_number hash_bytes) summary,
          rw (decoded, found, acted, summed) refl,
          shaped.0,
          involve-Nodup [] logs tt,
          λ b.
              let i = involve-In [] logs b in
              (λ m. elim (i.0 m) [ inl nowhere ↦ absurd nowhere | inr l ↦ l ], λ m. i.1 (inr m)),
        )

    -- Given two hexadecimal digits for each byte: the explanation of a transaction that is found
    -- under its hash, between addresses of 20 bytes, panics exactly when the transaction is a call
    -- of `transferFrom` with 100 to 111 bytes of input. The standard encoding of that call has 100
    -- bytes.
    pub explain_transaction-panics_iff :
        (explain_transaction fmt find_tx log_addresses tx_hash ≡ panic) ↔ Misread fmt tx
    unfolding explain_transaction
    explain_transaction-panics_iff = (
      λ p. elim (Misread-cases fmt tx) [
        | inl misread ↦ misread
        | inr read ↦ let (e, returned, _, _, _) = explain_transaction-returns read in cc
      ],
      λ misread. let stops = actions_of-panics misread in rw (decoded, found, stops) refl,
    )
