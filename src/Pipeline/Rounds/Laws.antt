-- ===== src/Pipeline/Rounds/Laws.antt =====
-- How far a round gets, and what it leaves in the database: the main loop of src/main.rs.
use mathlib.Core.Path.{subst}
use mathlib.Core.List.{append_assoc}
use chain_lens.Base.{
  ℕ, zero, suc, ◌+◌, ◌≤◌, ◌<◌, ◌≡◌, ◌≢◌, ap, inl, inr, ◌↔◌, ◌==◌, some, List, [], ◌∷◌, true, false,
  arith, Outcome, ok, panic, Outcome-cases, Bool-cases, Ensures, Ensures-ok, value, panicked, ◌++◌,
  ◌∙◌, refl, sym, length, length-append, ltb, >>=-eq-ok, ok-injective,
}
use chain_lens.Domain.{IndexedBlock}
use chain_lens.Rpc.{EthClient}
use chain_lens.Decode.Errors.{Host}
use chain_lens.Store.Postgres.Invariant.{IsConsistent}
use chain_lens.Pipeline.Committer.{commit_block}
use chain_lens.Pipeline.Committer.Laws.{commit_block_keeps_IsConsistent}
use chain_lens.Pipeline.Sequencer.{run}
use chain_lens.Base.{In}
use chain_lens.Pipeline.Sequencer.Maps.{has}
use chain_lens.Pipeline.Sequencer.Order.{
  Consecutive, Consecutive-le, run_iff, run-Consecutive, In-has,
}
use chain_lens.Pipeline.Channel.{Channel, Move, opened, moves, Settled}
use chain_lens.Pipeline.Channel.Settles.{moves-Settled}
use chain_lens.Pipeline.Worker.{Workers, Choice, steps, spawn_workers, is_done}
use chain_lens.Pipeline.Worker.Schedules.{workers_iff}
use chain_lens.Pipeline.Rounds.{
  RoundConfig, range, start_block, fetch_count, blocks_to_fetch, Progress, RoundEnd, progress_of,
  commit_fetched, round_end, round,
}

range_iff : (from count k : ℕ) → In k (range from count) ↔ ((from ≤ k) × (k < from + count))
unfolding range
range_iff from zero k = (λ h. absurd h, λ h. absurd (omega (arith, h.0, h.1)))
range_iff from (suc count) k =
    let (there, back) = range_iff (from + 1) count k in
    (
      λ m. elim m [
        | inl is ↦ (omega arith, omega arith)
        | inr rest ↦ (omega (arith, (there rest).0), omega (arith, (there rest).1))
      ],
      λ h. elim (Bool-cases (k == from)) [
        | inl same ↦ inl (ground arith)
        | inr other ↦ inr (back (ground (arith, h.0), omega (arith, h.1)))
      ],
    )

has-In : {B : Type 0} (k : ℕ) (m : List (ℕ × B)) → has k m ≡ true → (b : B) × In (k, b) m
has-In k [] h = absurd (ground arith)
has-In k ((j, c) ∷ m) h = elim (Bool-cases (k == j)) [
  | inl same ↦ let is : k ≡ j = ground arith in (c, inl (ap (λ i. (i, c)) is))
  | inr other ↦ let (b, there) = has-In k m (ground (arith, h)) in (b, inr there)
]

-- The block is one of those to fetch, and it and every one before it could be fetched.
abbrev pub Fetchable :
    {B E : Type 0} → (ℕ → Outcome E B) → RoundConfig → (cursor latest : ℕ) → ℕ → Type 0
Fetchable {B} fetch config cursor latest n =
    (n < start_block config cursor + fetch_count config cursor latest)
    × ((m : ℕ) → start_block config cursor ≤ m → m ≤ n → (b : B) × (fetch m ≡ ok b))

-- The blocks that the sequencer sends, if its channel takes them all.
sendable_iff :
    {B E : Type 0} (fetch : ℕ → Outcome E B) (worker_count : ℕ) (config : RoundConfig)
    (cursor latest : ℕ) (cs : List Choice) (w : Workers B)
    → steps fetch cs (spawn_workers worker_count (blocks_to_fetch config cursor latest)) ≡ some w
    → is_done w ≡ true
    → 0 < worker_count
    → ((k : ℕ) → In k (blocks_to_fetch config cursor latest) → fetch k ≢ panic)
    → (n : ℕ) → start_block config cursor ≤ n
    → (n < (run w.delivered (start_block config cursor)).expected)
      ↔ Fetchable fetch config cursor latest n
unfolding blocks_to_fetch
sendable_iff {B} fetch worker_count config cursor latest cs w h d some_worker calm n from =
    let start = start_block config cursor in
    let count = fetch_count config cursor latest in
    let numbers = blocks_to_fetch config cursor latest in
    let each = workers_iff fetch worker_count numbers cs w h d some_worker calm in
    let (sent, complete) = run_iff start w.delivered n from in
    (
      λ below.
          let fetched : (m : ℕ) → start ≤ m → m ≤ n → In m numbers × ((b : B) × (fetch m ≡ ok b)) =
            λ m l u.
              let (b, there) = has-In m w.delivered (sent below m l u) in
              let (is_number, is_ok) = (each (m, b)).0 there in (is_number, (b, is_ok)) in
          (
            ((range_iff start count n).0 (fetched n from (omega arith)).0).1,
            λ m l u. (fetched m l u).1,
          ),
      λ (within, all). complete (λ m l u.
          let (b, is_ok) = all m l u in
          let is_number = (range_iff start count m).1 (l, omega arith) in
          In-has start (m, b) w.delivered ((each (m, b)).1 (is_number, is_ok))),
    )

-- The first blocks of consecutive ones.
has-prefix :
    {B : Type 0} (e : ℕ) (r s : List (ℕ × B)) (last n : ℕ)
    → Consecutive e (r ++ s) last
    → e ≤ n
    → (has n r ≡ true) ↔ (n < e + length r)
has-prefix e [] s last n c l = (λ h. absurd (ground (arith, h)), λ h. absurd (omega (arith, l, h)))
has-prefix e ((k, b) ∷ r) s last n c l = elim (Bool-cases (n == k)) [
  | inl same ↦
      let is : n ≡ k = ground (arith, same) in
      (λ _. omega (arith, is, c.0), λ _. ground (arith, same))
  | inr other ↦
      let apart : e + 1 ≤ n = ground (arith, other, c.0, l) in
      let (there, back) = has-prefix (e + 1) r s last n c.1 apart in
      (
        λ h. omega (arith, there (ground (arith, other, h))),
        λ h. ground (arith, other, back (omega (arith, h))),
      )
]

-- In a round whose loop breaks after `stop` receipts, however the workers, the sends and the receipts
-- interleave: once the workers have come to an end and neither the sequencer nor the loop can go on,
-- the loop has received the block `n` exactly when `n` is one of the blocks to fetch, every block from
-- the first of them up to it could be fetched, and it is among the first `stop` of them; and the
-- sequencer has sent it exactly when it is among the first `stop + fetch_queue_depth`. There is a
-- worker, no fetch panics and the channel has room for a block.
pub fetched_iff :
    {B E : Type 0} (fetch : ℕ → Outcome E B) (worker_count : ℕ) (config : RoundConfig)
    (cursor latest : ℕ) (cs : List Choice) (w : Workers B)
    → steps fetch cs (spawn_workers worker_count (blocks_to_fetch config cursor latest)) ≡ some w
    → is_done w ≡ true
    → 0 < worker_count
    → ((k : ℕ) → In k (blocks_to_fetch config cursor latest) → fetch k ≢ panic)
    → (stop : ℕ) (ms : List Move) (c : Channel (ℕ × B))
    → moves config.fetch_queue_depth stop ms
        (opened (run w.delivered (start_block config cursor)).sent)
      ≡ some c
    → Settled config.fetch_queue_depth stop c
    → 0 < config.fetch_queue_depth
    → (n : ℕ) → start_block config cursor ≤ n
    → ((has n c.received ≡ true)
        ↔ (Fetchable fetch config cursor latest n × (n < start_block config cursor + stop)))
      × ((has n (c.received ++ c.queue) ≡ true) ↔ (
          Fetchable fetch config cursor latest n
          × (n < start_block config cursor + (stop + config.fetch_queue_depth))))
fetched_iff fetch worker_count config cursor latest cs w h d some_worker calm stop ms c reached
      settled room n from =
    let start = start_block config cursor in
    let s = run w.delivered start in
    let all =
      sendable_iff fetch worker_count config cursor latest cs w h d some_worker calm n from in
    let (whole, got, sent, _) =
      moves-Settled config.fetch_queue_depth stop s.sent ms c reached settled room in
    let order = (run-Consecutive start w.delivered).0 in
    let size : start + length s.sent ≡ s.expected = Consecutive-le start s.expected s.sent order in
    let received =
      has-prefix start c.received (c.queue ++ c.unsent) s.expected n
        (subst (λ l. Consecutive start l s.expected) (sym whole) order) from in
    let passed =
      has-prefix start (c.received ++ c.queue) c.unsent s.expected n
        (subst (λ l. Consecutive start l s.expected)
          (sym (append_assoc c.received c.queue c.unsent ∙ whole)) order)
        from in
    let both = length-append c.received c.queue in
    (
      (
        λ r. (all.0 (omega (arith, received.0 r, got, size)), omega (arith, received.0 r, got)),
        λ (f, l). received.1 (omega (arith, all.1 f, l, got, size)),
      ),
      (
        λ r. (
          all.0 (omega (arith, passed.0 r, sent, both, size)),
          omega (arith, passed.0 r, sent, both),
        ),
        λ (f, l). passed.1 (omega (arith, all.1 f, l, sent, both, size)),
      ),
    )

module _ (clients : ℕ → EthClient) (host : Host) (now : ℕ → ℕ) (config : RoundConfig) where
  abbrev Keeps : List (ℕ × IndexedBlock) → Progress → Type 0
  Keeps fetched p =
      Ensures (λ (q : Progress × List (ℕ × IndexedBlock)). IsConsistent q.0.db)
        (commit_fetched clients host now config fetched p)

  commit_fetched-IsConsistent :
      (fetched : List (ℕ × IndexedBlock)) (p : Progress) → IsConsistent p.db → Keeps fetched p
  unfolding commit_fetched
  commit_fetched-IsConsistent [] p i = value i
  commit_fetched-IsConsistent ((n, b) ∷ fetched) p i =
      let m = commit_block (clients n) host (now n) p.db n config.max_reorg_depth in
      elim (Outcome-cases m) [
        | inr (inl is_panic) ↦ rw (commit_fetched, is_panic) panicked
        | inr (inr (e, is_err)) ↦
            rw (commit_fetched, is_err) (commit_fetched-IsConsistent fetched p i)
        | inl ((true, db), is_ok) ↦
            let kept =
              commit_block_keeps_IsConsistent (clients n) host (now n) p.db n config.max_reorg_depth
                true db i is_ok in
            rw (commit_fetched, is_ok) (value kept)
        | inl ((false, db), is_ok) ↦
            let kept =
              commit_block_keeps_IsConsistent (clients n) host (now n) p.db n config.max_reorg_depth
                false db i is_ok in
            rw (commit_fetched, is_ok)
              (commit_fetched-IsConsistent fetched
                (record { cursor = n; blocks_indexed = p.blocks_indexed + 1; db = db }) kept)
      ]

  round_end-progress :
      (result : Progress × List (ℕ × IndexedBlock))
      → progress_of (round_end clients host now config result) ≡ result.0
  unfolding round_end
  round_end-progress (p, unreceived) =
      elim (Bool-cases (ltb config.fetch_queue_depth (length unreceived))) [
        | inl many ↦ rw (round_end, many) refl
        | inr few ↦ rw (round_end, few) refl
      ]

  -- A round keeps the database consistent, whatever was delivered and however the commits end, be it
  -- that the round comes to an end or that it hangs.
  pub round-IsConsistent :
      (delivered : List (ℕ × IndexedBlock)) (p : Progress) {r : RoundEnd}
      → IsConsistent p.db
      → round clients host now config delivered p ≡ ok r
      → IsConsistent (progress_of r).db
  unfolding round
  round-IsConsistent delivered p {r} i h =
      let sent = (run delivered (start_block config p.cursor)).sent in
      let (result, committed, e) = >>=-eq-ok (commit_fetched clients host now config sent p) _ h in
      let kept =
        Ensures-ok (λ (q : Progress × List (ℕ × IndexedBlock)). IsConsistent q.0.db)
          (commit_fetched clients host now config sent p) (commit_fetched-IsConsistent sent p i)
          committed in
      let is : round_end clients host now config result ≡ r = ok-injective e in
      subst (λ r. IsConsistent (progress_of r).db) is
        (subst (λ (q : Progress). IsConsistent q.db) (sym (round_end-progress result)) kept)
