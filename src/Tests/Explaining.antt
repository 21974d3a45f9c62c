-- ===== src/Tests/Explaining.antt =====
-- Explanations of transactions, at concrete inputs.
use mathlib.Core.Option.{some-injective}
use chain_lens.Base.{
  trim_0x, text, ap, ℕ, ◌+◌, ◌*◌, ◌/◌, ◌%◌, ◌≤◌, ◌≡◌, ◌↔◌, refl, some, none, List, [], ◌∷◌, ◌++◌,
  map, length, if◌then◌else◌, ltb, replicate, arith, In, Nodup, ℤ, pos, ok, panic,
}
use chain_lens.Domain.{Bytes}
use chain_lens.Intelligence.Actions.{TransactionAction, Formats, show_address, erc20_transfer}
use chain_lens.Intelligence.Actions.Selectors.{actions_of}
use chain_lens.Intelligence.Actions.Explain.{TransactionExplanation, TxRow, explain_transaction}
use chain_lens.Intelligence.Actions.Panics.{
  Misread, explain_transaction-returns, explain_transaction-panics_iff,
}
use chain_lens.Intelligence.Actions.Words.{encoded_transfer, transfer_call-misnames}

abbrev pub digit : ℕ → ℕ
digit n = if ltb n 10 then b'0' + n else n + 87

abbrev pub to_hex : Bytes → Bytes
to_hex [] = []
to_hex (b ∷ bytes) = digit (b / 16) ∷ digit (b % 16) ∷ to_hex bytes

pub length-to_hex : (b : Bytes) → length (to_hex b) ≡ 2 * length b
length-to_hex [] = refl
length-to_hex (x ∷ b) = omega (arith, length-to_hex b)

abbrev pub formats : Formats
formats = record {
  hex_encode = to_hex;
  hex_decode = λ s. some s;
  from_be_slice = λ b. length b;
  show_u256 = λ n. n ∷ [];
  parse_u128 = λ s. some 7;
  fixed = λ d v u. v ∷ [];
}

-- A `transferFrom` in the standard encoding.
abbrev pub moving : TxRow
moving = record {
  block_number = pos 5;
  from_addr = replicate 20 1;
  to_addr = some (replicate 20 2);
  value = b'0' ∷ [];
  gas_used = pos 40000;
  gas_price = none;
  effective_gas_price = none;
  status = some (pos 1);
  input = 35 ∷ 184 ∷ 114 ∷ 221 ∷ replicate 96 0;
  timestamp = [];
}

abbrev pub paying : TxRow
paying = record moving { value = b'1' ∷ []; input = [] }

abbrev pub logs_of : ℤ → Bytes → List Bytes
logs_of _ _ = replicate 20 2 ∷ replicate 20 2 ∷ []

pub contract_20 : (b : Bytes) → moving.to_addr ≡ some b → length b ≡ 20
contract_20 b same = omega (arith, ap length (some-injective _ _ same))

decoded : formats.hex_decode (trim_0x (9 ∷ [])) ≡ some (9 ∷ [])
unfolding trim_0x
decoded = refl

explain_transaction-panics_iff_example :
    (explain_transaction formats (λ h. some moving) logs_of (9 ∷ []) ≡ panic)
    ↔ Misread formats moving
explain_transaction-panics_iff_example =
    explain_transaction-panics_iff formats length-to_hex moving refl contract_20 (λ h. some moving)
      logs_of (9 ∷ []) (9 ∷ []) decoded refl

not-Misread : ¬ Misread formats paying
not-Misread m = omega (arith, m.2.0)

explain_transaction-returns_example :
    (e : TransactionExplanation) × (explain_transaction formats (λ h. some paying) logs_of (9 ∷ [])
      ≡ ok e)
    × (length e.actions ≤ 1)
    × Nodup e.contracts_involved
    × ((b : Bytes)
        → In b e.contracts_involved
          ↔ In b (map (show_address formats) (logs_of paying.block_number (9 ∷ []))))
explain_transaction-returns_example =
    explain_transaction-returns formats length-to_hex paying refl contract_20 (λ h. some paying)
      logs_of (9 ∷ []) (9 ∷ []) decoded refl not-Misread

abbrev contract : Bytes
contract = text "0xcontract"

selector_text : formats.hex_encode (169 ∷ 5 ∷ 156 ∷ 187 ∷ []) ≡ text "a9059cbb"
unfolding text
selector_text = refl

abbrev receiver : Bytes
receiver = replicate 12 3 ++ replicate 8 4

abbrev small_amount : Bytes
small_amount = replicate 12 0 ++ replicate 20 7

transfer_call-misnames_example :
    (a : TransactionAction) × (actions_of formats []
        (some contract)
        []
        []
        (encoded_transfer (169 ∷ 5 ∷ 156 ∷ 187 ∷ []) (replicate 12 0) receiver small_amount)
        (some [])
      ≡ ok (a ∷ []))
    × (a.action_type ≡ erc20_transfer)
    × (a.from ≡ [])
    × (a.token_address ≡ some contract)
    × (a.amount ≡ some (32 ∷ []))
    × (a.to ≡ some (show_address formats (replicate 8 4 ++ replicate 12 0)))
transfer_call-misnames_example =
    transfer_call-misnames formats (169 ∷ 5 ∷ 156 ∷ 187 ∷ []) (replicate 12 0) (replicate 12 3)
      (replicate 8 4) (replicate 12 0) (replicate 20 7) refl refl refl refl refl refl selector_text
      [] [] (some contract) [] []
