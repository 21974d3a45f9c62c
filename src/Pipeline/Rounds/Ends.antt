-- ===== src/Pipeline/Rounds/Ends.antt =====
-- Whether a round of the main loop of src/main.rs comes to an end.
use mathlib.Core.Path.{subst}
use chain_lens.Base.{
  ℕ, ◌+◌, ◌≤◌, ◌<◌, ◌≡◌, ◌≢◌, inl, inr, ◌↔◌, some, List, [], ◌∷◌, true, false, arith, ok,
  Outcome-cases, Bool-cases, Ensures, Ensures-ok, value, panicked, ◌-◌, refl, length, ltb,
  >>=-eq-ok, ok-injective, Ensures-of_ok,
}
use chain_lens.Domain.{IndexedBlock}
use chain_lens.Rpc.{EthClient}
use chain_lens.Decode.Errors.{Host}
use chain_lens.Pipeline.Committer.{commit_block}
use chain_lens.Pipeline.Sequencer.{run}
use chain_lens.Pipeline.Channel.{Channel, Move, opened, moves, Settled}
use chain_lens.Pipeline.Channel.Settles.{moves-Settled}
use chain_lens.Pipeline.Rounds.{
  RoundConfig, start_block, Progress, RoundEnd, ended, hangs, commit_fetched, round_end, round,
}

ended_not_hangs : {p q : Progress} → ◌≢◌ {A = RoundEnd} (hangs p) (ended q)
ended_not_hangs e = cc e

module _ (clients : ℕ → EthClient) (host : Host) (now : ℕ → ℕ) (config : RoundConfig) where
  -- Each block is received or left over.
  commit_fetched-left :
      (fetched : List (ℕ × IndexedBlock)) (p : Progress)
      → Ensures
          (λ (q : Progress × List (ℕ × IndexedBlock)). length q.1 ≤ length fetched)
          (commit_fetched clients host now config fetched p)
  unfolding commit_fetched
  commit_fetched-left [] p = value (omega arith)
  commit_fetched-left ((n, b) ∷ fetched) p =
      let longer = λ (r : Progress).
        Ensures-of_ok
          (λ (q : Progress × List (ℕ × IndexedBlock)). length q.1 ≤ length ((n, b) ∷ fetched))
          (commit_fetched clients host now config fetched r)
          (λ q e.
            let fewer =
              Ensures-ok (λ (q : Progress × List (ℕ × IndexedBlock)). length q.1 ≤ length fetched)
                (commit_fetched clients host now config fetched r) (commit_fetched-left fetched r)
                e in
            omega (arith, fewer)) in
      elim (Outcome-cases (commit_block (clients n) host (now n) p.db n config.max_reorg_depth)) [
        | inr (inl is_panic) ↦ rw (commit_fetched, is_panic) panicked
        | inr (inr (e, is_err)) ↦ rw (commit_fetched, is_err) (longer p)
        | inl ((true, db), is_ok) ↦ rw (commit_fetched, is_ok) (value (omega arith))
        | inl ((false, db), is_ok) ↦
            rw (commit_fetched, is_ok)
              (longer (record { cursor = n; blocks_indexed = p.blocks_indexed + 1; db = db }))
      ]

  -- The blocks of a round that the loop has not received when it stops are at most those that the
  -- sequencer sends; and when the loop stops after all others, the round comes to an end exactly when
  -- the sequencer, however the sends and the receipts interleave, has sent all its blocks once neither
  -- of them can go on; otherwise it hangs.
  pub round-Settled :
      (delivered : List (ℕ × IndexedBlock)) (p : Progress) {r : RoundEnd}
      → round clients host now config delivered p ≡ ok r
      → 0 < config.fetch_queue_depth
      → (q : Progress) × (unreceived : List (ℕ × IndexedBlock)) × (commit_fetched clients host now
            config
            (run delivered (start_block config p.cursor)).sent
            p
          ≡ ok (q, unreceived))
        × (length unreceived ≤ length (run delivered (start_block config p.cursor)).sent)
        × ((ms : List Move) (c : Channel (ℕ × IndexedBlock))
            → let stop =
                length (run delivered (start_block config p.cursor)).sent - length unreceived in
              moves config.fetch_queue_depth stop ms
                  (opened (run delivered (start_block config p.cursor)).sent)
                ≡ some c
              → Settled config.fetch_queue_depth stop c
              → (r ≡ ended q) ↔ (c.unsent ≡ []))
  unfolding round round_end
  round-Settled delivered p {r} h room =
      let sent = (run delivered (start_block config p.cursor)).sent in
      let ((q, left), committed, e) =
        >>=-eq-ok (commit_fetched clients host now config sent p) _ h in
      let few =
        Ensures-ok (λ (q : Progress × List (ℕ × IndexedBlock)). length q.1 ≤ length sent)
          (commit_fetched clients host now config sent p) (commit_fetched-left sent p) committed in
      let is : round_end clients host now config (q, left) ≡ r = ok-injective e in
      (
        q,
        left,
        committed,
        few,
        λ ms c reached settled.
            let (_, _, _, all_sent) =
              moves-Settled config.fetch_queue_depth (length sent - length left) sent ms c reached
                settled room in
            subst (λ r. (r ≡ ended q) ↔ (c.unsent ≡ [])) is
              (elim (Bool-cases (ltb config.fetch_queue_depth (length left))) [
                | inl many ↦
                    rw (round_end, many)
                      (
                        λ s. absurd (ended_not_hangs s),
                        λ u. absurd (ground (arith, many, few, all_sent.0 u)),
                      )
                | inr fits ↦
                    rw (round_end, fits) (λ _. all_sent.1 (ground (arith, fits, few)), λ _. refl)
              ]),
      )
