-- ===== src/Tests/Persisting.antt =====
-- What analyses write and handlers answer, at a concrete server.
use chain_lens.Base.{
  All, ℕ, ◌^◌, ◌≡◌, ◌≢◌, refl, Option, some, none, List, [], ◌∷◌, ◌++◌, Bool, true, false, leb,
  length, ◌&&◌, ltb, bytes_eq, if◌then◌else◌, trim_0x, text, ℤ, pos, Outcome, ok, err, panic,
}
use chain_lens.Domain.{Bytes}
use chain_lens.Decode.Errors.{slice}
use chain_lens.Intelligence.Actions.{
  Formats, ExplainError, TransactionAction, ActionType, eth_transfer, erc20_transfer,
  erc20_approval, erc721_transfer, erc1155_transfer, contract_creation, contract_call, swap,
  unknown,
}
use chain_lens.Intelligence.Persist.{action_name}
use chain_lens.Intelligence.Actions.Explain.{
  TransactionExplanation, explanation, explain_transaction,
}
use chain_lens.Intelligence.Anomalies.{Anomaly, activity_spike, high}
use chain_lens.Intelligence.Background.{Write}
use chain_lens.Intelligence.Persist.Rows.{Each, Complete, Stored}
use chain_lens.Intelligence.Persist.Explained.{explained-Stored}
use chain_lens.Intelligence.Persist.Rejected.{perform_all_leaves}
use chain_lens.Intelligence.Persist.Statements.{persist_transaction_actions, perform_all}
use chain_lens.Sql.{
  SqlType, varchar, vec_u8, numeric, timestamptz, bytea, text_type, int2, int4, int8, RustType,
  as_i16, as_i32, as_i64, as_string, as_bytes, Value, string, TableName, address_stats, Row, Tables,
  Server, rows,
}
use chain_lens.Api.Analyses.{explained_again}
use chain_lens.Api.Effects.{copies, explained_again-copies}
use chain_lens.Tests.Explaining.{paying, logs_of}

abbrev pub takes : SqlType → Value ℕ → Bool
takes numeric (string s) = false
takes timestamptz (string s) = false
takes varchar (string (some s)) = leb (length s) 50
takes column v = true

abbrev pub decodes : RustType → SqlType → Bool
decodes as_i16 int2 = true
decodes as_i32 int4 = true
decodes as_i64 int8 = true
decodes as_string text_type = true
decodes as_bytes bytea = true
decodes rust column = false

-- What may not be NULL.
abbrev pub present : Value ℕ → Bool
present (vec_u8 none) = false
present (string none) = false
present v = true

-- The table of actions asks for a type, a sender and a description; the others are not filled here.
abbrev pub constrains : TableName → List (Value ℕ) → Bool
constrains TableName.transaction_actions
      (hash ∷ name ∷ from ∷ to ∷ token ∷ amount ∷ spender ∷ description ∷ []) =
    present hash && present name && present from && present description
constrains TableName.transaction_actions row = false
constrains table row = true

abbrev pub server : Server ℕ
server = record {
  accepts = takes;
  constrained = constrains;
  nextval = λ table. pos 1;
  reads = decodes;
}

abbrev pub no_rows : Tables ℕ
no_rows = record {
  transaction_actions = [];
  address_stats = [];
  contract_profiles = [];
  anomalies = [];
  mev_events = [];
  block_analytics = [];
  address_relationships = [];
}

-- A notation for bytes, and one for numbers, that can be undone.
abbrev pub uncoded : Bytes → Option Bytes
uncoded [] = none
uncoded (_ ∷ b) = some b

abbrev pub parse_digit : Bytes → Option ℤ
parse_digit (n ∷ []) = if ltb n (2 ^ 63) then some (pos n) else none
parse_digit s = none

abbrev pub coding : Formats
coding = record {
  hex_encode = λ b. 1 ∷ b;
  hex_decode = uncoded;
  from_be_slice = λ b. 7;
  show_u256 = λ n. n ∷ [];
  parse_u128 = λ s. some 7;
  fixed = λ d v u. v ∷ [];
}

bare : (b : Bytes) → trim_0x (1 ∷ b) ≡ 1 ∷ b
unfolding trim_0x
bare [] = refl
bare (x ∷ b) = refl

abbrev explains : Outcome ExplainError TransactionExplanation
explains = explain_transaction coding (λ h. some paying) logs_of (1 ∷ 9 ∷ [])

-- The explanation, or one of nothing.
abbrev explained_or : Outcome ExplainError TransactionExplanation → TransactionExplanation
explained_or (ok e) = e
explained_or (err e) = explanation coding [] paying [] [] []
explained_or panic = explanation coding [] paying [] [] []

explained : explains ≡ ok (explained_or explains)
unfolding explain_transaction trim_0x text bytes_eq slice
explained = refl

decoded_hash : coding.hex_decode (trim_0x (1 ∷ 9 ∷ [])) ≡ some (9 ∷ [])
unfolding trim_0x
decoded_hash = refl

takes_names : (t : ActionType) → server.accepts varchar (string (some (action_name t))) ≡ true
unfolding action_name text
takes_names eth_transfer = refl
takes_names erc20_transfer = refl
takes_names erc20_approval = refl
takes_names erc721_transfer = refl
takes_names erc1155_transfer = refl
takes_names contract_creation = refl
takes_names contract_call = refl
takes_names swap = refl
takes_names unknown = refl

takes_texts :
    (actions : List TransactionAction)
    → All
        (λ (a : TransactionAction). server.accepts text_type (string (some a.description)) ≡ true)
        actions
takes_texts [] = tt
takes_texts (a ∷ actions) = (refl, takes_texts actions)

meets :
    (row : Row ℕ)
    → Complete (9 ∷ []) row
    → server.constrained TableName.transaction_actions row ≡ true
meets row (t, from, to, token, amount, spender, description, is) = rw is refl

explained-Stored_example :
    (new : List (Row ℕ)) × Each (Stored coding (9 ∷ [])) (explained_or explains).actions new
    × ((db : Tables ℕ)
        → persist_transaction_actions coding server parse_digit (explained_or explains) db
          ≡ (ok tt, record db { transaction_actions = db.transaction_actions ++ new }))
explained-Stored_example =
    explained-Stored coding (λ b. refl) bare server parse_digit (λ n. refl) (λ b. refl) takes_names
      (λ n. refl) (λ h. some paying) logs_of (1 ∷ 9 ∷ []) (9 ∷ []) (explained_or explains) explained
      decoded_hash (takes_texts _) meets

explained_again-copies_example :
    (new : List (Row ℕ)) × Each (Stored coding (9 ∷ [])) (explained_or explains).actions new
    × ((k : ℕ) (db : Tables ℕ)
        → explained_again coding server parse_digit k explains db
          ≡ record db { transaction_actions = db.transaction_actions ++ copies k new })
explained_again-copies_example =
    explained_again-copies coding (λ b. refl) bare server parse_digit (λ n. refl) (λ b. refl)
      takes_names (λ n. refl) (λ h. some paying) logs_of (1 ∷ 9 ∷ []) (9 ∷ [])
      (explained_or explains) explained decoded_hash (takes_texts _) meets

abbrev spike : Anomaly ℕ
spike = record {
  id = 0;
  anomaly_type = activity_spike;
  severity = high;
  detected_at = text "2024-01-01";
  entity = 1 ∷ [];
  entity_type = text "block";
  description = [];
  observed_value = 9;
  baseline_value = 1;
  threshold = 3;
  evidence = [];
  block_number = some 7;
  tx_hash = none;
}

stats_not_actions : ◌≢◌ {A = TableName} address_stats TableName.transaction_actions
stats_not_actions e = cc e

perform_all_leaves_example :
    rows address_stats (perform_all coding server parse_digit (Write.anomaly spike ∷ []) no_rows)
    ≡ rows address_stats no_rows
perform_all_leaves_example =
    perform_all_leaves coding server address_stats (λ s. refl) (λ s. refl) parse_digit
      (Write.anomaly spike ∷ []) no_rows stats_not_actions
