-- ===== src/Intelligence/Persist/Rows.antt =====
-- The rows that `persist_transaction_actions` of src/intelligence/persist.rs stores for an
-- explanation.
use mathlib.Core.Option
use mathlib.Core.List.{append_assoc, append-nil}
use chain_lens.Base.{
  All, ℕ, ◌^◌, ◌<◌, ◌≤◌, lt→ltb, le→ltb, ◌≡◌, refl, ap, ◌∙◌, Option, none, some, List, [], ◌∷◌,
  ◌++◌, true, trim_0x, ltb, if◌then◌else◌, ℤ, pos, text, ok,
}
use chain_lens.Domain.{Bytes}
use chain_lens.Intelligence.Actions.{ActionType, TransactionAction, Formats, show_address}
use chain_lens.Intelligence.Persist.{
  action_name, parsed, decode_hex, decode_or, decode_opt, action_insert,
}
use chain_lens.Intelligence.Persist.Actions.{ShownOpt, Readable, AllReadable}
use chain_lens.Intelligence.Persist.Statements.{persist_actions}
use chain_lens.Sql.{
  bytea, varchar, text_type, numeric, vec_u8, string, int_64, transaction_actions, Row, Tables,
  Server, with_rows, all_accepted, store_row, execute,
}

-- Two lists of one length, related item by item.
abbrev pub Each : {A B : Type 0} → (A → B → Type 0) → List A → List B → Type 0
Each R [] [] = Unit
Each R [] (b ∷ bs) = ⊥
Each R (a ∷ as') [] = ⊥
Each R (a ∷ as') (b ∷ bs) = R a b × Each R as' bs

-- The row holds the hash and the action: its addresses as the bytes that their texts show, and its
-- amount if that is below 2 ^ 63.
pub record Stored {F : Type 0} (fmt : Formats) (hash : Bytes) (a : TransactionAction) (row : Row F)
    : Type 0 where
  pub sender : Bytes
  pub receiver : Option Bytes
  pub token : Option Bytes
  pub spender : Option Bytes
  pub amount : Option ℤ
  pub from_is : a.from ≡ show_address fmt sender
  pub to_is : a.to ≡ Option.map (show_address fmt) receiver
  pub token_is : a.token_address ≡ Option.map (show_address fmt) token
  pub spender_is : a.spender ≡ Option.map (show_address fmt) spender
  pub no_amount : a.amount ≡ none → amount ≡ none
  pub small : (n : ℕ) → a.amount ≡ some (fmt.show_u256 n) → n < 2 ^ 63 → amount ≡ some (pos n)
  pub large : (n : ℕ) → a.amount ≡ some (fmt.show_u256 n) → 2 ^ 63 ≤ n → amount ≡ none
  pub row_is :
      row
      ≡ vec_u8 (some hash)
        ∷ string (some (action_name a.action_type))
        ∷ vec_u8 (some sender)
        ∷ vec_u8 receiver
        ∷ vec_u8 token
        ∷ int_64 amount
        ∷ vec_u8 spender
        ∷ string (some a.description)
        ∷ []

-- A row for the table of actions that has what may not be NULL: the hash, the name of a type, a
-- sender and a description.
abbrev pub Complete : {F : Type 0} → Bytes → Row F → Type 0
Complete {F} hash row =
    (t : ActionType) × (from : Bytes) × (to token : Option Bytes) × (amount : Option ℤ)
    × (spender : Option Bytes) × (description : Bytes) × ◌≡◌ {A = Row F} row (
        vec_u8 (some hash)
        ∷ string (some (action_name t))
        ∷ vec_u8 (some from)
        ∷ vec_u8 to
        ∷ vec_u8 token
        ∷ int_64 amount
        ∷ vec_u8 spender
        ∷ string (some description)
        ∷ [])

-- The server takes the descriptions of the actions as texts.
abbrev pub TakesTexts : {F : Type 0} → Server F → List TransactionAction → Type 0
TakesTexts server actions =
    All (λ (a : TransactionAction). server.accepts text_type (string (some a.description)) ≡ true)
      actions

module _ (fmt : Formats) (undo : (b : Bytes) → fmt.hex_decode (fmt.hex_encode b) ≡ some b)
    (bare : (b : Bytes) → trim_0x (fmt.hex_encode b) ≡ fmt.hex_encode b) where
  decode_hex-show : (b : Bytes) → decode_hex fmt (show_address fmt b) ≡ some b
  unfolding decode_hex show_address text trim_0x
  decode_hex-show b = rw (decode_hex, bare b) (undo b)

  decode_or-Shown :
      (message : _) (s b : Bytes) → s ≡ show_address fmt b → decode_or fmt message s ≡ ok b
  unfolding decode_or
  decode_or-Shown message s b e = rw (e, decode_hex-show b) refl

  decode_opt-Shown :
      (message : _) (s : Option Bytes)
      → ShownOpt fmt s
      → (o : Option Bytes) × (s ≡ Option.map (show_address fmt) o)
        × (decode_opt fmt message s ≡ ok o)
  unfolding decode_opt
  decode_opt-Shown message none shown = (none, refl, refl)
  decode_opt-Shown message (some s) (b, e) =
      (some b, ap some e, rw (decode_or-Shown message s b e) refl)

  module _ {F : Type 0} (server : Server F) (parse_i64 : Bytes → Option ℤ)
      (parses : (n : ℕ)
        → parse_i64 (fmt.show_u256 n) ≡ (if ltb n (2 ^ 63) then some (pos n) else none))
      (takes_bytes : (b : Option Bytes) → server.accepts bytea (vec_u8 b) ≡ true)
      (takes_name : (t : ActionType)
        → server.accepts varchar (string (some (action_name t))) ≡ true)
      (takes_number : (n : Option ℤ) → server.accepts numeric (int_64 n) ≡ true) (hash : Bytes)
      (met : (row : Row F)
        → Complete hash row
        → server.constrained transaction_actions row ≡ true) where
    -- One round of the loop.
    action-Stored :
        (a : TransactionAction)
        → Readable fmt a
        → server.accepts text_type (string (some a.description)) ≡ true
        → (row : Row F) × Stored fmt hash a row
          × ((actions : List TransactionAction) (db : Tables F)
              → persist_actions fmt server parse_i64 hash (a ∷ actions) db
                ≡ persist_actions fmt server parse_i64 hash actions
                    (with_rows transaction_actions (db.transaction_actions ++ row ∷ []) db))
    unfolding persist_actions action_insert execute all_accepted store_row parsed
    action-Stored a readable takes_text =
        let (b, from_is) = readable.0 in
        let (receiver, to_is, d2) = decode_opt-Shown "invalid to address" a.to readable.1 in
        let (token, token_is, d3) =
          decode_opt-Shown "invalid token address" a.token_address readable.2 in
        let (spender, spender_is, d4) =
          decode_opt-Shown "invalid spender address" a.spender readable.3 in
        (
          _,
          record {
            sender = b;
            receiver = receiver;
            token = token;
            spender = spender;
            from_is = from_is;
            to_is = to_is;
            token_is = token_is;
            spender_is = spender_is;
            amount = parsed parse_i64 a.amount;
            no_amount = λ e. rw e refl;
            small = λ n e below. rw (e, parsed, parses n, lt→ltb n (2 ^ 63) below) refl;
            large = λ n e above. rw (e, parsed, parses n, le→ltb n (2 ^ 63) above) refl;
            row_is = refl;
          },
          λ actions db.
              rw
                (
                  decode_or-Shown "invalid from address" a.from b from_is,
                  d2,
                  d3,
                  d4,
                  takes_bytes (some hash),
                  takes_bytes (some b),
                  takes_bytes receiver,
                  takes_bytes token,
                  takes_bytes spender,
                  takes_name a.action_type,
                  takes_text,
                  takes_number,
                  met _ (
                    a.action_type,
                    b,
                    receiver,
                    token,
                    parsed parse_i64 a.amount,
                    spender,
                    a.description,
                    refl,
                  ),
                )
                refl,
        )

    -- The whole loop.
    pub actions-Stored :
        (actions : List TransactionAction)
        → AllReadable fmt actions
        → TakesTexts server actions
        → (new : List (Row F)) × Each (Stored fmt hash) actions new
          × ((db : Tables F)
              → persist_actions fmt server parse_i64 hash actions db
                ≡ (ok tt, with_rows transaction_actions (db.transaction_actions ++ new) db))
    unfolding persist_actions
    actions-Stored [] readable takes = ([], tt, λ db. rw append-nil refl)
    actions-Stored (a ∷ actions) readable takes =
        let (row, stored, step) = action-Stored a readable.0 takes.0 in
        let (new, each, rest) = actions-Stored actions readable.1 takes.1 in
        (row ∷ new, (stored, each), λ db. step actions db ∙ rest _ ∙ rw append_assoc refl)
