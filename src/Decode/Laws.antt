-- ===== src/Decode/Laws.antt =====
-- When the decoding of transactions and logs in src/decode/block.rs succeeds, and with what.
use chain_lens.Base.{
  ℕ, ◌+◌, ◌%◌, ◌^◌, ◌≡◌, refl, List, [], ◌∷◌, ok, length, bytes_eq→eq, bytes_eq_iff, ◌↔◌, arith,
}
use chain_lens.Domain.{Transaction, Log}
use chain_lens.Rpc.{LogResponse, TransactionResponse, ReceiptResponse, BlockResponse}
use chain_lens.Decode.Blocks.{
  to_u32, decode_single_transaction, decode_transactions_from, decode_transactions, decode_log,
  decode_logs_from, decode_logs,
}

-- The transactions `ts` are those of the answers, each joined with the receipt of its own hash, at
-- the positions `index`, `index + 1`, …
abbrev pub Joined :
    ℕ → ℕ → List TransactionResponse → List ReceiptResponse → List Transaction → Type 0
Joined n index [] [] [] = Unit
Joined n index (tx ∷ txs) (r ∷ rs) (t ∷ ts) =
    (tx.hash ≡ r.transaction_hash)
    × (t ≡ decode_single_transaction n index tx r)
    × Joined n (index + 1) txs rs ts
Joined n index _ _ _ = ⊥

decode_transactions_from-Joined :
    (n index : ℕ) (txs : List TransactionResponse) (rs : List ReceiptResponse)
    (ts : List Transaction)
    → length txs ≡ length rs
    → decode_transactions_from n index txs rs ≡ ok ts
    → Joined n index txs rs ts
unfolding decode_transactions_from
decode_transactions_from-Joined n index [] [] [] l h = tt
decode_transactions_from-Joined n index [] [] (t ∷ ts) l h = cc
decode_transactions_from-Joined n index [] (r ∷ rs) ts l h = absurd (omega arith)
decode_transactions_from-Joined n index (tx ∷ txs) [] ts l h = absurd (omega arith)
decode_transactions_from-Joined n index (tx ∷ txs) (r ∷ rs) [] l h = ground arith
decode_transactions_from-Joined n index (tx ∷ txs) (r ∷ rs) (t ∷ ts) l h = ground (
  arith,
  bytes_eq→eq tx.hash r.transaction_hash,
  decode_transactions_from-Joined n (index + 1) txs rs ts,
)

Joined-decode_transactions_from :
    (n index : ℕ) (txs : List TransactionResponse) (rs : List ReceiptResponse)
    (ts : List Transaction)
    → Joined n index txs rs ts
    → (length txs ≡ length rs) × (decode_transactions_from n index txs rs ≡ ok ts)
unfolding decode_transactions_from
Joined-decode_transactions_from n index [] [] [] j = (refl, refl)
Joined-decode_transactions_from n index [] [] (t ∷ ts) j = absurd j
Joined-decode_transactions_from n index [] (r ∷ rs) ts j = absurd j
Joined-decode_transactions_from n index (tx ∷ txs) [] ts j = absurd j
Joined-decode_transactions_from n index (tx ∷ txs) (r ∷ rs) [] j = absurd j
Joined-decode_transactions_from n index (tx ∷ txs) (r ∷ rs) (t ∷ ts) j = ground (
  arith,
  bytes_eq_iff tx.hash r.transaction_hash,
  Joined-decode_transactions_from n (index + 1) txs rs ts j.2,
)

-- Decoding the transactions gives `ts` exactly when there is one receipt for each transaction, every
-- receipt carries the hash of the transaction at its position, and `ts` joins them in order.
pub decode_transactions_iff :
    (block : BlockResponse) (rs : List ReceiptResponse) (ts : List Transaction)
    → (decode_transactions block rs ≡ ok ts) ↔ Joined block.number 0 block.transactions rs ts
unfolding decode_transactions
decode_transactions_iff block rs ts = (
  λ h. ground (arith, decode_transactions_from-Joined block.number 0 block.transactions rs ts),
  λ j. ground (arith, Joined-decode_transactions_from block.number 0 block.transactions rs ts j),
)

-- The logs `ls` are the raw logs in order, each under the index of its position.
abbrev pub Numbered : ℕ → ℕ → List LogResponse → List Log → Type 0
Numbered n position [] [] = Unit
Numbered n position (raw ∷ raws) (l ∷ ls) =
    (to_u32 raw.log_index ≡ position % 2 ^ 32)
    × (l ≡ decode_log n (position % 2 ^ 32) raw)
    × Numbered n (position + 1) raws ls
Numbered n position _ _ = ⊥

decode_logs_from-Numbered :
    (n position : ℕ) (raws : List LogResponse) (ls : List Log)
    → decode_logs_from n position raws ≡ ok ls
    → Numbered n position raws ls
unfolding decode_logs_from
decode_logs_from-Numbered n position [] [] h = tt
decode_logs_from-Numbered n position [] (l ∷ ls) h = cc
decode_logs_from-Numbered n position (raw ∷ raws) [] h = ground arith
decode_logs_from-Numbered n position (raw ∷ raws) (l ∷ ls) h =
    ground (arith, decode_logs_from-Numbered n (position + 1) raws ls)

Numbered-decode_logs_from :
    (n position : ℕ) (raws : List LogResponse) (ls : List Log)
    → Numbered n position raws ls
    → decode_logs_from n position raws ≡ ok ls
unfolding decode_logs_from
Numbered-decode_logs_from n position [] [] j = refl
Numbered-decode_logs_from n position [] (l ∷ ls) j = absurd j
Numbered-decode_logs_from n position (raw ∷ raws) [] j = absurd j
Numbered-decode_logs_from n position (raw ∷ raws) (l ∷ ls) j =
    ground (arith, Numbered-decode_logs_from n (position + 1) raws ls j.2)

-- Decoding the logs gives `ls` exactly when the log indices count the positions (modulo 2^32, the
-- range of the counter), and `ls` are the logs in order under those indices.
pub decode_logs_iff :
    (block : BlockResponse) (raws : List LogResponse) (ls : List Log)
    → (decode_logs block raws ≡ ok ls) ↔ Numbered block.number 0 raws ls
unfolding decode_logs
decode_logs_iff block raws ls = (
  decode_logs_from-Numbered block.number 0 raws ls,
  Numbered-decode_logs_from block.number 0 raws ls,
)
