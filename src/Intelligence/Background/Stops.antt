-- ===== src/Intelligence/Background/Stops.antt =====
-- What a panic of an explanation does to the task of src/intelligence/background.rs.
use mathlib.Core.Path.{subst}
use chain_lens.Base.{
  ℕ, ◌*◌, length, trim_0x, ℤ, Option, some, ◌≡◌, refl, sym, ap, ◌∙◌, inl, inr, List, [], ◌∷◌, ◌++◌,
  panic, ok, In,
}
use chain_lens.Domain.{Bytes}
use chain_lens.Intelligence.Actions.{Formats, show_address}
use chain_lens.Intelligence.Actions.Explain.{TxRow, explain_transaction}
use chain_lens.Intelligence.Actions.Panics.{Misread, explain_transaction-panics_iff}
use chain_lens.Intelligence.Background.{
  IntelligenceTask, block_committed, shutdown, Analyses, Ran, goes_on, stopped, then_run, each,
  explain_one, explain_all, analyze_rest, process_block, process,
}

module _ {X : Type 0} where
  -- The task has ended, whatever it has written.
  abbrev pub Stopped : Ran X → Type 0
  Stopped (goes_on ws) = ⊥
  Stopped (stopped ws) = Unit

  then_run-first : (a b : Ran X) → Stopped a → then_run a b ≡ a
  then_run-first (stopped ws) b s = refl
  then_run-first (goes_on ws) b s = absurd s

  pub then_run-second : (a b : Ran X) → Stopped b → Stopped (then_run a b)
  then_run-second (stopped ws) b s = tt
  then_run-second (goes_on ws) (stopped vs) s = tt
  then_run-second (goes_on ws) (goes_on vs) s = absurd s

  Stopped-then_run : (a b : Ran X) → Stopped a → Stopped (then_run a b)
  Stopped-then_run (stopped ws) b s = tt
  Stopped-then_run (goes_on ws) b s = absurd s

  each-Stopped :
      {A : Type 0} (f : A → Ran X) (a : A) (l : List A)
      → In a l
      → Stopped (f a)
      → Stopped (each f l)
  unfolding each
  each-Stopped f a (b ∷ l) (inl here) s =
      Stopped-then_run (f b) (each f l) (subst (λ c. Stopped (f c)) here s)
  each-Stopped f a (b ∷ l) (inr there) s =
      then_run-second (f b) (each f l) (each-Stopped f a l there s)
  each-Stopped f a [] m s = absurd m

module _ {Stats Profile Anomaly Analytics Event : Type 0} (fmt : Formats)
    (run : Analyses Stats Profile Anomaly Analytics Event) where
  explain_one-Stopped :
      (hash : Bytes)
      → run.explain_transaction (show_address fmt hash) ≡ panic
      → Stopped (explain_one fmt run hash)
  unfolding explain_one
  explain_one-Stopped hash stops = rw stops tt

  process_block-Stopped :
      (n : ℕ) (hash : Bytes) (hashes : List Bytes)
      → run.tx_hashes n ≡ ok hashes
      → In hash hashes
      → run.explain_transaction (show_address fmt hash) ≡ panic
      → Stopped (process_block fmt run n)
  unfolding process_block explain_all
  process_block-Stopped n hash hashes answered m stops =
      rw (process_block, answered)
        (Stopped-then_run (explain_all fmt run hashes) (analyze_rest fmt run n)
          (each-Stopped (explain_one fmt run) hash hashes m one))
    where
      one : Stopped (explain_one fmt run hash)
      one = explain_one-Stopped hash stops

  pub process-Stopped :
      (n : ℕ) (before after : List IntelligenceTask)
      → Stopped (process_block fmt run n)
      → process fmt run (before ++ block_committed n ∷ after)
        ≡ process fmt run (before ++ block_committed n ∷ [])
  unfolding process
  process-Stopped n [] after s =
      then_run-first _ (process fmt run after) s ∙ sym (then_run-first _ (goes_on []) s)
  process-Stopped n (shutdown ∷ before) after s = refl
  process-Stopped n (block_committed m ∷ before) after s =
      ap (λ r. then_run (process_block fmt run m) r) (process-Stopped n before after s)

  -- Given two hexadecimal digits for each byte: when the query for the transactions of a committed
  -- block answers, among them one that is found under its hash, between addresses of 20 bytes, and is a call of `transferFrom` with 100
  -- to 111 bytes of input, the messages after the block's message have no effect: nothing is
  -- written for any later block.
  pub process_after-Misread :
      (two_digits : (b : Bytes) → length (fmt.hex_encode b) ≡ 2 * length b)
      (find_tx : Bytes → Option TxRow) (log_addresses : ℤ → Bytes → List Bytes)
      → run.explain_transaction ≡ explain_transaction fmt find_tx log_addresses
      → (n : ℕ) (hash hash_bytes : Bytes) (hashes : List Bytes) (tx : TxRow)
      → run.tx_hashes n ≡ ok hashes
      → In hash hashes
      → fmt.hex_decode (trim_0x (show_address fmt hash)) ≡ some hash_bytes
      → find_tx hash_bytes ≡ some tx
      → length tx.from_addr ≡ 20
      → ((b : Bytes) → tx.to_addr ≡ some b → length b ≡ 20)
      → Misread fmt tx
      → (before after : List IntelligenceTask)
      → process fmt run (before ++ block_committed n ∷ after)
        ≡ process fmt run (before ++ block_committed n ∷ [])
  process_after-Misread two_digits find_tx log_addresses same n hash hash_bytes hashes tx answered m
        decoded found from_20 to_20 misread before after =
      let stops : run.explain_transaction (show_address fmt hash) ≡ panic =
        ap (λ f. f (show_address fmt hash)) same
        ∙ (explain_transaction-panics_iff fmt two_digits tx from_20 to_20 find_tx log_addresses
              (show_address fmt hash) hash_bytes decoded found).1
            misread in
      process-Stopped n before after (process_block-Stopped n hash hashes answered m stops)
