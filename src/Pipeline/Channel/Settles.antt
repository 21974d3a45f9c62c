-- ===== src/Pipeline/Channel/Settles.antt =====
-- How far the sequencer and the loop get over the channel of src/main.rs.
use mathlib.Core.Path.{subst}
use mathlib.Core.Option.{some-injective}
use mathlib.Core.List.{append_assoc}
use chain_lens.Base.{
  ℕ, zero, suc, ◌+◌, ◌*◌, ◌≤◌, ◌<◌, ◌≡◌, ◌∙◌, refl, sym, ap, ◌↔◌, ◌⊎◌, inl, inr, none, some, List,
  [], ◌∷◌, ◌++◌, ltb, length, length-append, min, arith, Option-cases, Bool-cases,
}
use chain_lens.Pipeline.Channel.{Channel, Move, sends, receives, opened, move, moves, Settled}

module _ {B : Type 0} (capacity stop : ℕ) (blocks : List B) where
  -- Nothing is lost and nothing changes its place.
  pub record Flows (c : Channel B) : Type 0 where
    pub whole : c.received ++ (c.queue ++ c.unsent) ≡ blocks
    pub bounded : length c.queue ≤ capacity
    pub few : length c.received ≤ stop

  -- What is left to do: each block is sent and then received.
  abbrev pub due : Channel B → ℕ
  due c = 2 * length c.unsent + length c.queue

  send-Flows :
      (c : Channel B) (unsent : List B) {c' : Channel B}
      → c.unsent ≡ unsent
      → move capacity stop sends c ≡ some c'
      → Flows c
      → Flows c' × (due c' < due c)
  unfolding move
  send-Flows c [] u h f = absurd (ground (arith, u))
  send-Flows c (b ∷ rest) {c'} u h f = elim (Bool-cases (ltb (length c.queue) capacity)) [
    | inr full ↦ absurd (ground (arith, u, full))
    | inl room ↦
        let next : Channel B = record {
          unsent = rest;
          queue = c.queue ++ b ∷ [];
          received = c.received;
        } in
        let is : ◌≡◌ {A = Channel B} next c' = ground (arith, u, room) in
        let below : length c.queue < capacity = ground (arith, room) in
        let less : due next < due c = omega (arith, ap length u, length-append c.queue (b ∷ [])) in
        subst (λ d. Flows d × (due d < due c)) is
          (
            record {
              whole =
                  ap (λ l. c.received ++ l)
                    (append_assoc c.queue (b ∷ []) rest ∙ ap (λ l. c.queue ++ l) (sym u))
                  ∙ f.whole;
              bounded = omega (arith, length-append c.queue (b ∷ []), below);
              few = f.few;
            },
            less,
          )
  ]

  receive-Flows :
      (c : Channel B) (queue : List B) {c' : Channel B}
      → c.queue ≡ queue
      → move capacity stop receives c ≡ some c'
      → Flows c
      → Flows c' × (due c' < due c)
  unfolding move
  receive-Flows c [] q h f = absurd (ground (arith, q))
  receive-Flows c (b ∷ rest) {c'} q h f = elim (Bool-cases (ltb (length c.received) stop)) [
    | inr enough ↦ absurd (ground (arith, q, enough))
    | inl more ↦
        let next : Channel B = record {
          unsent = c.unsent;
          queue = rest;
          received = c.received ++ b ∷ [];
        } in
        let is : ◌≡◌ {A = Channel B} next c' = ground (arith, q, more) in
        let below : length c.received < stop = ground (arith, more) in
        let less : due next < due c = omega (arith, ap length q) in
        subst (λ d. Flows d × (due d < due c)) is
          (
            record {
              whole =
                  append_assoc c.received (b ∷ []) (rest ++ c.unsent)
                  ∙ ap (λ l. c.received ++ (l ++ c.unsent)) (sym q)
                  ∙ f.whole;
              bounded = omega (arith, f.bounded, ap length q);
              few = omega (arith, length-append c.received (b ∷ []), below);
            },
            less,
          )
  ]

  move-Flows :
      (m : Move) (c : Channel B) {c' : Channel B}
      → move capacity stop m c ≡ some c'
      → Flows c
      → Flows c' × (due c' < due c)
  move-Flows sends c h f = send-Flows c c.unsent refl h f
  move-Flows receives c h f = receive-Flows c c.queue refl h f

  moves-Flows :
      (ms : List Move) (c : Channel B) {c' : Channel B}
      → moves capacity stop ms c ≡ some c'
      → Flows c
      → Flows c'
  unfolding moves
  moves-Flows [] c h f = subst Flows (some-injective _ _ h) f
  moves-Flows (m ∷ ms) c h f = elim (Option-cases (move capacity stop m c)) [
    | inl stuck ↦ absurd (ground arith)
    | inr (next, found) ↦ moves-Flows ms next (ground arith) (move-Flows m c found f).0
  ]

  opened-Flows : Flows (opened blocks)
  unfolding opened
  opened-Flows = record { whole = refl; bounded = omega arith; few = omega arith }

  send_stuck :
      (c : Channel B)
      → move capacity stop sends c ≡ none
      → (c.unsent ≡ []) ⊎ (capacity ≤ length c.queue)
  unfolding move
  send_stuck c h = go c.unsent refl
    where
      go : (unsent : List B) → c.unsent ≡ unsent → (c.unsent ≡ []) ⊎ (capacity ≤ length c.queue)
      go [] u = inl u
      go (b ∷ rest) u = elim (Bool-cases (ltb (length c.queue) capacity)) [
        | inl room ↦ absurd (ground (arith, u, room))
        | inr full ↦ inr (ground (arith, full))
      ]

  receive_stuck :
      (c : Channel B)
      → move capacity stop receives c ≡ none
      → (c.queue ≡ []) ⊎ (stop ≤ length c.received)
  unfolding move
  receive_stuck c h = go c.queue refl
    where
      go : (queue : List B) → c.queue ≡ queue → (c.queue ≡ []) ⊎ (stop ≤ length c.received)
      go [] q = inl q
      go (b ∷ rest) q = elim (Bool-cases (ltb (length c.received) stop)) [
        | inl more ↦ absurd (ground (arith, q, more))
        | inr enough ↦ inr (ground (arith, enough))
      ]

  empty_or : (l : List B) → length l ≡ 0 → l ≡ []
  empty_or [] h = refl
  empty_or (b ∷ l) h = absurd (omega (arith, h))

  -- However the sends and the receipts interleave, once neither the sequencer nor the loop can go on,
  -- the loop has received the first `stop` blocks, the next ones wait in the channel up to its
  -- capacity, which is not zero, and the sequencer has sent all blocks exactly when they are at most
  -- `stop + capacity`; otherwise it waits for ever. No block is lost, doubled or out of order.
  pub moves-Settled :
      (ms : List Move) (c : Channel B)
      → moves capacity stop ms (opened blocks) ≡ some c
      → Settled capacity stop c
      → 0 < capacity
      → (c.received ++ (c.queue ++ c.unsent) ≡ blocks)
        × (length c.received ≡ min stop (length blocks))
        × (length c.received + length c.queue ≡ min (stop + capacity) (length blocks))
        × ((c.unsent ≡ []) ↔ (length blocks ≤ stop + capacity))
  moves-Settled ms c h (no_send, no_receive) room =
      let f = moves-Flows ms (opened blocks) h opened-Flows in
      let size : length c.received + (length c.queue + length c.unsent) ≡ length blocks = omega (
        arith,
        ap length f.whole,
        length-append c.received (c.queue ++ c.unsent),
        length-append c.queue c.unsent,
      ) in
      let sent = send_stuck c no_send in
      let got = receive_stuck c no_receive in
      (
        f.whole,
        elim sent [
          | inl u ↦ elim got [
            | inl q ↦ omega (arith, size, ap length u, ap length q, f.few)
            | inr s ↦ omega (arith, size, s, f.few)
          ]
          | inr full ↦ elim got [
            | inl q ↦ absurd (omega (arith, full, room, ap length q))
            | inr s ↦ omega (arith, size, s, f.few)
          ]
        ],
        elim sent [
          | inl u ↦ omega (arith, size, ap length u, f.few, f.bounded)
          | inr full ↦ elim got [
            | inl q ↦ absurd (omega (arith, full, room, ap length q))
            | inr s ↦ omega (arith, size, s, full, f.few, f.bounded)
          ]
        ],
        (
          λ u. omega (arith, size, ap length u, f.few, f.bounded),
          λ le. elim sent [
            | inl u ↦ u
            | inr full ↦ elim got [
              | inl q ↦ absurd (omega (arith, full, room, ap length q))
              | inr s ↦ empty_or c.unsent (omega (arith, size, s, full, le))
            ]
          ],
        ),
      )

  move_or :
      (c : Channel B)
      → Settled capacity stop c
        ⊎ ((m : Move) × (next : Channel B) × (move capacity stop m c ≡ some next))
  move_or c = elim (Option-cases (move capacity stop sends c)) [
    | inr (next, found) ↦ inr (sends, next, found)
    | inl no_send ↦ elim (Option-cases (move capacity stop receives c)) [
      | inr (next, found) ↦ inr (receives, next, found)
      | inl no_receive ↦ inl (no_send, no_receive)
    ]
  ]

  -- The sequencer and the loop come to such a state from every other.
  moves-end :
      (fuel : ℕ) (c : Channel B)
      → Flows c
      → due c ≤ fuel
      → (ms : List Move) × (c' : Channel B) × (moves capacity stop ms c ≡ some c')
        × Settled capacity stop c'
  unfolding moves
  moves-end zero c f enough = elim (move_or c) [
    | inl settled ↦ ([], c, refl, settled)
    | inr (m, next, found) ↦ absurd (omega (arith, (move-Flows m c found f).1, enough))
  ]
  moves-end (suc fuel) c f enough = elim (move_or c) [
    | inl settled ↦ ([], c, refl, settled)
    | inr (m, next, found) ↦
        let (flows, less) = move-Flows m c found f in
        let (ms, c', reached, settled) = moves-end fuel next flows (omega (arith, less, enough)) in
        (m ∷ ms, c', rw (moves, found) reached, settled)
  ]

  pub opened-end :
      (ms : List Move) × (c : Channel B) × (moves capacity stop ms (opened blocks) ≡ some c)
      × Settled capacity stop c
  opened-end = moves-end (due (opened blocks)) (opened blocks) opened-Flows (omega arith)
