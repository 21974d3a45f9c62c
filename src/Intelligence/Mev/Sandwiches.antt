-- ===== src/Intelligence/Mev/Sandwiches.antt =====
-- The events that `detect_sandwich_patterns` of src/intelligence/mev.rs reports.
use mathlib.Core.Path.{subst}
use chain_lens.Base.{
  ℕ, ◌≡◌, ◌<◌, refl, sym, ap, inl, inr, ◌↔◌, Option, none, some, List, [], ◌∷◌, ◌++◌, true, ◌&&◌,
  bytes_eq, bytes_eq_iff, ltb, length, arith, Bool-cases,
}
use chain_lens.Domain.{Bytes, Address, Transaction}
use chain_lens.Intelligence.Anomalies.{Floats}
use chain_lens.Base.{In}
use chain_lens.Intelligence.Mev.{
  MevEvent, same_receiver, sandwich_event, sandwich_patterns, detect_sandwich_patterns,
}

-- The event reports three transactions in a row, the outer two from one address to one address, or
-- both of them without a receiver.
pub record Sandwiched {F : Type 0} (f : Floats F) (n : ℕ) (time : Bytes) (txs : List Transaction)
    (e : MevEvent F) : Type 0 where
  pub before : List Transaction
  pub prev : Transaction
  pub curr : Transaction
  pub next : Transaction
  pub after : List Transaction
  pub in_a_row : txs ≡ before ++ prev ∷ curr ∷ next ∷ after
  pub one_sender : prev.from ≡ next.from
  pub one_receiver : prev.to ≡ next.to
  pub reported : e ≡ sandwich_event f n time prev curr next

same_receiver_iff : (a b : Option Address) → (same_receiver a b ≡ true) ↔ (a ≡ b)
unfolding same_receiver
same_receiver_iff none none = (λ h. refl, λ h. refl)
same_receiver_iff none (some b) = (λ h. absurd (ground (arith, h)), λ h. absurd (ground (arith, h)))
same_receiver_iff (some a) none = (λ h. absurd (ground (arith, h)), λ h. absurd (ground (arith, h)))
same_receiver_iff (some a) (some b) =
    (λ h. ap some ((bytes_eq_iff a b).0 h), λ h. (bytes_eq_iff a b).1 (ground (arith, h)))

module _ {F : Type 0} (f : Floats F) (n : ℕ) (time : Bytes) (e : MevEvent F) where
  Sandwiched-later :
      (t : Transaction) (txs : List Transaction)
      → Sandwiched f n time txs e
      → Sandwiched f n time (t ∷ txs) e
  Sandwiched-later t txs s = record {
    before = t ∷ s.before;
    prev = s.prev;
    curr = s.curr;
    next = s.next;
    after = s.after;
    in_a_row = ap (λ l. t ∷ l) s.in_a_row;
    one_sender = s.one_sender;
    one_receiver = s.one_receiver;
    reported = s.reported;
  }

  reported-Sandwiched :
      (txs : List Transaction) → In e (sandwich_patterns f n time txs) → Sandwiched f n time txs e
  unfolding sandwich_patterns
  reported-Sandwiched [] h = absurd h
  reported-Sandwiched (a ∷ []) h = absurd h
  reported-Sandwiched (a ∷ b ∷ []) h = absurd h
  reported-Sandwiched (a ∷ b ∷ c ∷ txs) h =
      elim (Bool-cases (bytes_eq a.from c.from && same_receiver a.to c.to)) [
        | inr other ↦
            Sandwiched-later a (b ∷ c ∷ txs) (reported-Sandwiched (b ∷ c ∷ txs) (rw other at h))
        | inl same ↦ elim (rw same at h) [
          | inr there ↦ Sandwiched-later a (b ∷ c ∷ txs) (reported-Sandwiched (b ∷ c ∷ txs) there)
          | inl here ↦ record {
            before = [];
            prev = a;
            curr = b;
            next = c;
            after = txs;
            in_a_row = refl;
            one_sender = (bytes_eq_iff a.from c.from).0 (ground (arith, same));
            one_receiver = (same_receiver_iff a.to c.to).0 (ground (arith, same));
            reported = here;
          }
        ]
      ]

  In-sandwich_patterns_later :
      (t : Transaction) (txs : List Transaction)
      → In e (sandwich_patterns f n time txs)
      → In e (sandwich_patterns f n time (t ∷ txs))
  unfolding sandwich_patterns
  In-sandwich_patterns_later t [] h = absurd h
  In-sandwich_patterns_later t (a ∷ []) h = absurd h
  In-sandwich_patterns_later t (a ∷ b ∷ txs) h =
      elim (Bool-cases (bytes_eq t.from b.from && same_receiver t.to b.to)) [
        | inl same ↦ rw same (inr h)
        | inr other ↦ rw other h
      ]

  In-sandwich_patterns :
      (before : List Transaction) (a b c : Transaction) (after : List Transaction)
      → a.from ≡ c.from
      → a.to ≡ c.to
      → e ≡ sandwich_event f n time a b c
      → In e (sandwich_patterns f n time (before ++ a ∷ b ∷ c ∷ after))
  unfolding sandwich_patterns
  In-sandwich_patterns [] a b c after sender receiver is =
      let same : (bytes_eq a.from c.from && same_receiver a.to c.to) ≡ true =
        ground (
          arith,
          (bytes_eq_iff a.from c.from).1 sender,
          (same_receiver_iff a.to c.to).1 receiver,
        ) in
      rw same (inl is)
  In-sandwich_patterns (t ∷ before) a b c after sender receiver is =
      In-sandwich_patterns_later t (before ++ a ∷ b ∷ c ∷ after)
        (In-sandwich_patterns before a b c after sender receiver is)

  -- No three rows, no pattern.
  sandwich_patterns-short :
      (txs : List Transaction) → length txs < 3 → sandwich_patterns f n time txs ≡ []
  unfolding sandwich_patterns
  sandwich_patterns-short [] h = refl
  sandwich_patterns-short (a ∷ []) h = refl
  sandwich_patterns-short (a ∷ b ∷ []) h = refl
  sandwich_patterns-short (a ∷ b ∷ c ∷ txs) h = absurd (omega (arith, h))

  detect-patterns :
      (txs : List Transaction)
      → detect_sandwich_patterns f n time txs ≡ sandwich_patterns f n time txs
  unfolding detect_sandwich_patterns
  detect-patterns txs = elim (Bool-cases (ltb (length txs) 3)) [
    | inl short ↦ rw short (sym (sandwich_patterns-short txs (ground arith)))
    | inr enough ↦ rw enough refl
  ]

  -- An event is reported exactly when there are three transactions in a row of which the outer two
  -- have one sender and one receiver, or both no receiver, and it is the event of these three.
  pub detect_sandwich_patterns_iff :
      (txs : List Transaction)
      → In e (detect_sandwich_patterns f n time txs) ↔ Sandwiched f n time txs e
  detect_sandwich_patterns_iff txs = (
    λ h. reported-Sandwiched txs (subst (In e) (detect-patterns txs) h),
    λ s.
        let there =
          In-sandwich_patterns s.before s.prev s.curr s.next s.after s.one_sender s.one_receiver
            s.reported in
        let here = subst (λ l. In e (sandwich_patterns f n time l)) (sym s.in_a_row) there in
        subst (In e) (sym (detect-patterns txs)) here,
  )
