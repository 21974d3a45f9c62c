-- ===== src/Api/Effects.antt =====
-- What the handlers of src/api/handlers.rs that analyse leave in the tables.
use mathlib.Core.List.{append_assoc, append-nil}
use chain_lens.Base.{
  ℕ, zero, suc, ◌^◌, ◌≡◌, refl, ◌∙◌, Option, none, some, List, [], ◌++◌, true, trim_0x, ltb,
  if◌then◌else◌, ℤ, pos, ok,
}
use chain_lens.Domain.{Bytes}
use chain_lens.Intelligence.Persist.{action_name}
use chain_lens.Intelligence.Actions.{ActionType, Formats}
use chain_lens.Intelligence.Actions.Explain.{TransactionExplanation, TxRow, explain_transaction}
use chain_lens.Intelligence.Persist.Statements.{persist_transaction_actions, perform}
use chain_lens.Intelligence.Persist.Rows.{Each, Complete, TakesTexts, Stored}
use chain_lens.Intelligence.Persist.Explained.{explained-Stored}
use chain_lens.Sql.{
  bytea, varchar, numeric, vec_u8, string, int_64, transaction_actions, Row, Tables, Server,
}
use chain_lens.Api.Analyses.{answer_with, handle_explanation, explained_again}

-- As many copies of a list, one after the other.
abbrev pub copies : {A : Type 0} → ℕ → List A → List A
copies zero l = []
copies (suc k) l = l ++ copies k l

again :
    {F : Type 0} (fmt : Formats) (server : Server F) (parse_i64 : Bytes → Option ℤ)
    (e : TransactionExplanation) (new : List (Row F))
    → ((db : Tables F)
        → persist_transaction_actions fmt server parse_i64 e db
          ≡ (ok tt, record db { transaction_actions = db.transaction_actions ++ new }))
    → (k : ℕ) (db : Tables F)
    → explained_again fmt server parse_i64 k (ok e) db
      ≡ record db { transaction_actions = db.transaction_actions ++ copies k new }
unfolding explained_again handle_explanation answer_with perform
again fmt server parse_i64 e new run zero db = rw append-nil refl
again fmt server parse_i64 e new run (suc k) db = rw (run db) (
    again fmt server parse_i64 e new run k
      (record db { transaction_actions = db.transaction_actions ++ new })
    ∙ rw append_assoc refl)

module _ {F : Type 0} (fmt : Formats)
    (undo : (b : Bytes) → fmt.hex_decode (fmt.hex_encode b) ≡ some b)
    (bare : (b : Bytes) → trim_0x (fmt.hex_encode b) ≡ fmt.hex_encode b) (server : Server F)
    (parse_i64 : Bytes → Option ℤ)
    (parses : (n : ℕ)
      → parse_i64 (fmt.show_u256 n) ≡ (if ltb n (2 ^ 63) then some (pos n) else none))
    (takes_bytes : (b : Option Bytes) → server.accepts bytea (vec_u8 b) ≡ true)
    (takes_name : (t : ActionType) → server.accepts varchar (string (some (action_name t))) ≡ true)
    (takes_number : (n : Option ℤ) → server.accepts numeric (int_64 n) ≡ true) where
  -- Under the conditions under which an explanation is persisted without an error, every further
  -- request for it stores its actions once more: after `k` requests the table of actions has `k`
  -- copies of their rows, one row for each action in each copy, after what it held.
  pub explained_again-copies :
      (find_tx : Bytes → Option TxRow) (log_addresses : ℤ → Bytes → List Bytes)
      (tx_hash hash : Bytes) (e : TransactionExplanation)
      → explain_transaction fmt find_tx log_addresses tx_hash ≡ ok e
      → fmt.hex_decode (trim_0x tx_hash) ≡ some hash
      → TakesTexts server e.actions
      → ((row : Row F) → Complete hash row → server.constrained transaction_actions row ≡ true)
      → (new : List (Row F)) × Each (Stored fmt hash) e.actions new
        × ((k : ℕ) (db : Tables F)
            → explained_again fmt server parse_i64 k
                (explain_transaction fmt find_tx log_addresses tx_hash)
                db
              ≡ record db { transaction_actions = db.transaction_actions ++ copies k new })
  explained_again-copies find_tx log_addresses tx_hash hash e explains decoded texts met =
      let (new, each, run) =
        explained-Stored fmt undo bare server parse_i64 parses takes_bytes takes_name takes_number
          find_tx log_addresses tx_hash hash e explains decoded texts met in
      (new, each, λ k db. rw explains (again fmt server parse_i64 e new run k db))
