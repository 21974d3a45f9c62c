-- ===== src/Intelligence/Persist/Explained.antt =====
-- What `persist_transaction_actions` of src/intelligence/persist.rs does with an explanation of
-- src/intelligence/actions.rs.
use mathlib.Core.Option
use chain_lens.Base.{
  ℕ, ◌^◌, ◌≡◌, refl, Option, none, some, List, ◌++◌, true, trim_0x, ltb, if◌then◌else◌, ℤ, pos, ok,
  ok_or, Ensures, value, Ensures-bind, Ensures->>=, Ensures-ok,
}
use chain_lens.Domain.{Bytes}
use chain_lens.Intelligence.Persist.{action_name}
use chain_lens.Intelligence.Actions.{ActionType, Formats, row_not_found, show_address}
use chain_lens.Intelligence.Actions.Explain.{
  TransactionExplanation, TxRow, wei_to_eth, build_summary, explanation, explain_transaction,
}
use chain_lens.Intelligence.Actions.Selectors.{actions_of}
use chain_lens.Intelligence.Persist.{decode_hex, decode_or}
use chain_lens.Intelligence.Persist.Actions.{ShownOpt, AllReadable, actions_of-AllReadable}
use chain_lens.Intelligence.Persist.Statements.{persist_transaction_actions}
use chain_lens.Sql.{
  bytea, varchar, numeric, vec_u8, string, int_64, transaction_actions, Row, Tables, Server,
}
use chain_lens.Intelligence.Persist.Rows.{Each, Complete, TakesTexts, Stored, actions-Stored}

-- What the explanation of a transaction says: whose it is, and addresses that can be read.
abbrev Explains : Formats → Bytes → TransactionExplanation → Type 0
Explains fmt tx_hash e = (e.tx_hash ≡ tx_hash) × AllReadable fmt e.actions

Shown-map : (fmt : Formats) (a : Option Bytes) → ShownOpt fmt (Option.map (show_address fmt) a)
Shown-map fmt none = tt
Shown-map fmt (some b) = (b, refl)

explain_transaction-Explains :
    (fmt : Formats) (find_tx : Bytes → Option TxRow) (log_addresses : ℤ → Bytes → List Bytes)
    (tx_hash : Bytes)
    → Ensures (Explains fmt tx_hash) (explain_transaction fmt find_tx log_addresses tx_hash)
unfolding explain_transaction explanation
explain_transaction-Explains fmt find_tx log_addresses tx_hash =
    Ensures->>= P (ok_or (fmt.hex_decode (trim_0x tx_hash)) row_not_found) _ λ hash_bytes.
      Ensures->>= P (ok_or (find_tx hash_bytes) row_not_found) _ λ tx.
        let from = show_address fmt tx.from_addr in
        let to = Option.map (show_address fmt) tx.to_addr in
        let eth = wei_to_eth fmt tx.value in
        Ensures-bind (AllReadable fmt) P (actions_of fmt from to tx.value eth tx.input tx.to_addr) _
          (actions_of-AllReadable fmt from to tx.value eth tx.input (tx.from_addr, refl)
            (Shown-map fmt tx.to_addr) tx.to_addr)
          λ actions readable.
            Ensures->>= P (build_summary actions from to eth) _ λ summary. value (refl, readable)
  where
    P : TransactionExplanation → Type 0
    P = Explains fmt tx_hash

module _ {F : Type 0} (fmt : Formats)
    (undo : (b : Bytes) → fmt.hex_decode (fmt.hex_encode b) ≡ some b)
    (bare : (b : Bytes) → trim_0x (fmt.hex_encode b) ≡ fmt.hex_encode b) (server : Server F)
    (parse_i64 : Bytes → Option ℤ)
    (parses : (n : ℕ)
      → parse_i64 (fmt.show_u256 n) ≡ (if ltb n (2 ^ 63) then some (pos n) else none))
    (takes_bytes : (b : Option Bytes) → server.accepts bytea (vec_u8 b) ≡ true)
    (takes_name : (t : ActionType) → server.accepts varchar (string (some (action_name t))) ≡ true)
    (takes_number : (n : Option ℤ) → server.accepts numeric (int_64 n) ≡ true) where
  -- Given that decoding undoes hexadecimal encoding, which writes no prefix, that `i64` numbers are
  -- parsed below 2 ^ 63 and no others, that the server takes byte strings and numbers for columns of
  -- type BYTEA and NUMERIC, the names of the types of actions for one of type VARCHAR and the
  -- descriptions of these actions for one of type TEXT, and for the table every row of the transaction
  -- that has a type, a sender and a description: the actions of an explanation are persisted without
  -- an error, as one row each, in order, after what the table held, with the hash, the addresses of
  -- the action and its amount, which is NULL from 2 ^ 63 on.
  pub explained-Stored :
      (find_tx : Bytes → Option TxRow) (log_addresses : ℤ → Bytes → List Bytes)
      (tx_hash hash : Bytes) (e : TransactionExplanation)
      → explain_transaction fmt find_tx log_addresses tx_hash ≡ ok e
      → fmt.hex_decode (trim_0x tx_hash) ≡ some hash
      → TakesTexts server e.actions
      → ((row : Row F) → Complete hash row → server.constrained transaction_actions row ≡ true)
      → (new : List (Row F)) × Each (Stored fmt hash) e.actions new
        × ((db : Tables F)
            → persist_transaction_actions fmt server parse_i64 e db
              ≡ (ok tt, record db { transaction_actions = db.transaction_actions ++ new }))
  unfolding persist_transaction_actions decode_or decode_hex
  explained-Stored find_tx log_addresses tx_hash hash e explains decoded texts met =
      let (whose, readable) =
        Ensures-ok (Explains fmt tx_hash) _
          (explain_transaction-Explains fmt find_tx log_addresses tx_hash) explains in
      let (new, each, run) =
        actions-Stored fmt undo bare server parse_i64 parses takes_bytes takes_name takes_number
          hash met e.actions readable texts in
      (new, each, λ db. rw (whose, decoded) (run db))
