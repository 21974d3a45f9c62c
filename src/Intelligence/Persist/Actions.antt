-- ===== src/Intelligence/Persist/Actions.antt =====
-- The addresses of the actions of src/intelligence/actions.rs are texts that
-- src/intelligence/persist.rs decodes.
use Prim.Native.String.{String}
use chain_lens.Base.{
  ◌≡◌, refl, Option, none, some, List, [], ◌∷◌, bytes_eq, length, leb, text, not, ◌&&◌, is_none,
  is_empty, take, Bool-cases, inl, inr, ok, All, Ensures, value, Ensures-bind, Ensures->>=,
  Ensures-if,
}
use chain_lens.Domain.{Bytes}
use chain_lens.Decode.Errors.{slice}
use chain_lens.Intelligence.Actions.{
  ActionType, TransactionAction, Formats, ExplainError, Actions, show_address, address_at,
  amount_at, creation, transferred_eth, called, transfer_call, approve_call, transfer_from_call,
}
use chain_lens.Intelligence.Actions.Selectors.{
  match_arms, withdraw_call, mint_call, other_call, protocol_arms, swap_arms, token_arms,
  known_call, actions_of,
}

module _ (fmt : Formats) where
  -- The text is that of some bytes.
  abbrev pub Shown : Bytes → Type 0
  Shown s = (b : Bytes) × (s ≡ show_address fmt b)

  abbrev pub ShownOpt : Option Bytes → Type 0
  ShownOpt none = Unit
  ShownOpt (some s) = Shown s

  abbrev pub Readable : TransactionAction → Type 0
  Readable a = Shown a.from × ShownOpt a.to × ShownOpt a.token_address × ShownOpt a.spender

  abbrev pub AllReadable : List TransactionAction → Type 0
  AllReadable actions = All Readable actions

  match_arms-AllReadable :
      (selector : Bytes) (arms : List (String × Actions)) (other : Actions)
      → All (λ arm. Ensures AllReadable arm.1) arms
      → Ensures AllReadable other
      → Ensures AllReadable (match_arms selector arms other)
  unfolding match_arms
  match_arms-AllReadable selector [] other each r = r
  match_arms-AllReadable selector ((literal, arm) ∷ arms) other each r =
      Ensures-if AllReadable (bytes_eq selector (text literal)) _ _ each.0
        (match_arms-AllReadable selector arms other each.1 r)

  address_at-Shown : (input : Bytes) (offset : _) → Ensures Shown (address_at fmt input offset)
  unfolding address_at
  address_at-Shown input offset =
      Ensures->>= Shown (slice input offset _) _
        λ word. Ensures->>= Shown (slice word 12 (length word)) _ λ bytes. value (bytes, refl)

  module _ (from_addr : Bytes) (to_addr : Option Bytes) (value_str value_eth input : Bytes)
      (from_Shown : Shown from_addr) (to_Shown : ShownOpt to_addr) where
    transfer_call-AllReadable :
        Ensures AllReadable (transfer_call fmt from_addr to_addr value_str value_eth input)
    unfolding transfer_call
    transfer_call-AllReadable =
        Ensures-if AllReadable (leb 68 (length input)) _ _
          (Ensures-bind Shown AllReadable (address_at fmt input 16) _ (address_at-Shown input 16)
            λ to shown.
              Ensures->>= AllReadable (amount_at fmt input 36) _
                λ _. value ((from_Shown, shown, to_Shown, tt), tt))
          (value tt)

    approve_call-AllReadable :
        Ensures AllReadable (approve_call fmt from_addr to_addr value_str value_eth input)
    unfolding approve_call
    approve_call-AllReadable =
        Ensures-if AllReadable (leb 68 (length input)) _ _
          (Ensures-bind Shown AllReadable (address_at fmt input 16) _ (address_at-Shown input 16)
            λ spender shown. value ((from_Shown, to_Shown, to_Shown, shown), tt))
          (value tt)

    transfer_from_call-AllReadable :
        Ensures AllReadable (transfer_from_call fmt from_addr to_addr value_str value_eth input)
    unfolding transfer_from_call
    transfer_from_call-AllReadable =
        Ensures-if AllReadable (leb 100 (length input)) _ _
          (Ensures-bind Shown AllReadable (address_at fmt input 16) _ (address_at-Shown input 16)
            λ from sender.
              Ensures-bind Shown AllReadable (address_at fmt input 48) _ (address_at-Shown input 48)
                λ to receiver.
                  Ensures->>= AllReadable (amount_at fmt input 80) _
                    λ _. value ((sender, receiver, to_Shown, tt), tt))
          (value tt)

    called-AllReadable :
        (kind : ActionType) (sent amount : Option Bytes) (description : Bytes)
        → Ensures {E = ExplainError} AllReadable (
            ok
              (called fmt from_addr to_addr value_str value_eth input kind sent amount description))
    unfolding called
    called-AllReadable kind sent amount description =
        value ((from_Shown, to_Shown, to_Shown, tt), tt)

    withdraw_call-AllReadable :
        Ensures AllReadable (withdraw_call fmt from_addr to_addr value_str value_eth input)
    unfolding withdraw_call
    withdraw_call-AllReadable =
        Ensures-if AllReadable (leb 36 (length input)) _ _
          (Ensures->>= AllReadable (amount_at fmt input 4) _ λ _. called-AllReadable _ _ _ _)
          (value tt)

    mint_call-AllReadable :
        Ensures AllReadable (mint_call fmt from_addr to_addr value_str value_eth input)
    unfolding mint_call
    mint_call-AllReadable =
        Ensures-if AllReadable (leb 36 (length input)) _ _
          (Ensures->>= AllReadable (amount_at fmt input 4) _ λ _. called-AllReadable _ _ _ _)
          (value tt)

    other_call-AllReadable :
        Ensures {E = ExplainError} AllReadable
          (ok (other_call fmt from_addr to_addr value_str value_eth input))
    unfolding other_call transferred_eth
    other_call-AllReadable = elim (Bool-cases (not (bytes_eq value_str (text "0")))) [
      | inl paid ↦ rw paid (value ((from_Shown, to_Shown, tt, tt), tt))
      | inr free ↦ rw free (called-AllReadable _ _ _ _)
    ]

    swap_arms-AllReadable :
        All
          (λ arm. Ensures AllReadable arm.1)
          (swap_arms fmt from_addr to_addr value_str value_eth input)
    unfolding swap_arms
    swap_arms-AllReadable = search (called-AllReadable, withdraw_call-AllReadable)

    protocol_arms-AllReadable :
        All
          (λ arm. Ensures AllReadable arm.1)
          (protocol_arms fmt from_addr to_addr value_str value_eth input)
    unfolding protocol_arms
    protocol_arms-AllReadable =
        search (called-AllReadable, mint_call-AllReadable, value, from_Shown, to_Shown)

    known_call-AllReadable :
        (selector : Bytes)
        → Ensures AllReadable (known_call fmt from_addr to_addr value_str value_eth input selector)
    unfolding known_call token_arms
    known_call-AllReadable selector =
        match_arms-AllReadable selector (token_arms fmt from_addr to_addr value_str value_eth input)
          _
          (
            transfer_call-AllReadable,
            (approve_call-AllReadable, (transfer_from_call-AllReadable, tt)),
          )
          (match_arms-AllReadable selector
            (swap_arms fmt from_addr to_addr value_str value_eth input) _ swap_arms-AllReadable
            (match_arms-AllReadable selector
              (protocol_arms fmt from_addr to_addr value_str value_eth input) _
              protocol_arms-AllReadable other_call-AllReadable))

    pub actions_of-AllReadable :
        (to_bytes : Option Bytes)
        → Ensures AllReadable (actions_of fmt from_addr to_addr value_str value_eth input to_bytes)
    unfolding actions_of creation transferred_eth
    actions_of-AllReadable to_bytes =
        Ensures-if AllReadable (is_none to_bytes && not (is_empty input)) _ _
          (value ((from_Shown, tt, tt, tt), tt))
          (Ensures-if AllReadable (leb 4 (length input)) _ _
            (known_call-AllReadable (fmt.hex_encode (take 4 input)))
            (Ensures-if AllReadable (not (bytes_eq value_str (text "0"))) _ _
              (value ((from_Shown, to_Shown, tt, tt), tt)) (value tt)))
