-- ===== src/Api/Pages.antt =====
-- Pages of sorted rows, as the queries of src/api/handlers.rs cut them.
use mathlib.Core.Path.{subst}
use mathlib.Core.Option.{some-injective}
use chain_lens.Base.{
  ℕ, zero, suc, ◌≤◌, ◌<◌, ◌≡◌, refl, sym, ap, ◌↔◌, ◌⊎◌, inl, inr, Option, none, some, List, [], ◌∷◌,
  Bool, true, ◌&&◌, length, length-take, take, keep, All, All-In, In, arith, Bool-cases,
  bytes_eq_iff, ℤ, pos, negsuc,
}
use chain_lens.Domain.{Bytes, Log}
use chain_lens.Store.Db.{AddressTransaction}
use chain_lens.Api.{
  descends, Descending, OrderBy, below, at_most, at_least, of_address, of_contract, topic_matches,
}

-- The first `n` of the rows for which `Matches` holds: a row that is left out comes after all of
-- them, and they are `n` then.
pub record Page {A : Type 0} (key : A → ℕ × ℕ) (n : ℕ) (Matches : A → Type 0) (rows : List A)
    : Type 0 where
  pub few : length rows ≤ n
  pub ordered : Descending key rows
  pub sound : (r : A) → In r rows → Matches r
  pub complete :
      (r : A)
      → Matches r
      → In r rows ⊎ ((length rows ≡ n) × All (λ s. descends (key s) (key r) ≡ true) rows)

module _ {A : Type 0} where
  In-keep_iff : (p : A → Bool) (r : A) (xs : List A) → In r (keep p xs) ↔ (In r xs × (p r ≡ true))
  In-keep_iff p r [] = (λ m. absurd m, λ m. absurd m.0)
  In-keep_iff p r (x ∷ xs) =
      let i = In-keep_iff p r xs in
      elim (Bool-cases (p x)) [
        | inl held ↦ rw held (
          λ m. elim m [
            | inl here ↦ (inl here, subst (λ y. p y ≡ true) (sym here) held)
            | inr l ↦ (inr (i.0 l).0, (i.0 l).1)
          ],
          λ m. elim m.0 [ inl here ↦ inl here | inr l ↦ inr (i.1 (l, m.1)) ],
        )
        | inr fails ↦ rw fails (
          λ m. (inr (i.0 m).0, (i.0 m).1),
          λ m. elim m.0 [
            | inl here ↦
                let also : p x ≡ true = subst (λ y. p y ≡ true) here m.1 in
                absurd (ground (arith, also, fails))
            | inr l ↦ i.1 (l, m.1)
          ],
        )
      ]

  In-take : (n : ℕ) (r : A) (xs : List A) → In r (take n xs) → In r xs
  In-take zero r xs m = absurd m
  In-take (suc n) r [] m = m
  In-take (suc n) r (x ∷ xs) (inl here) = inl here
  In-take (suc n) r (x ∷ xs) (inr m) = inr (In-take n r xs m)

  All-take : (P : A → Type 0) (n : ℕ) (xs : List A) → All P xs → All P (take n xs)
  All-take P zero xs a = tt
  All-take P (suc n) [] a = tt
  All-take P (suc n) (x ∷ xs) a = (a.0, All-take P n xs a.1)

  module _ (key : A → ℕ × ℕ) where
    take-Descending : (n : ℕ) (xs : List A) → Descending key xs → Descending key (take n xs)
    take-Descending zero xs d = tt
    take-Descending (suc n) [] d = tt
    take-Descending (suc n) (x ∷ xs) d =
        (All-take (λ y. descends (key x) (key y) ≡ true) n xs d.0, take-Descending n xs d.1)

    take_complete :
        (n : ℕ) (xs : List A) (r : A)
        → Descending key xs
        → In r xs
        → In r (take n xs)
          ⊎ ((length (take n xs) ≡ n) × All (λ s. descends (key s) (key r) ≡ true) (take n xs))
    take_complete zero xs r d m = inr (refl, tt)
    take_complete (suc n) [] r d m = absurd m
    take_complete (suc n) (x ∷ xs) r d (inl here) = inl (inl here)
    take_complete (suc n) (x ∷ xs) r d (inr m) = elim (take_complete n xs r d.1 m) [
      | inl l ↦ inl (inr l)
      | inr (full, above) ↦
          inr (ap suc full, (All-In (λ y. descends (key x) (key y) ≡ true) r xs d.0 m, above))
    ]

    -- What SELECT, WHERE, ORDER BY and LIMIT give is a page.
    pub select-Page :
        (order : OrderBy A key) (p : A → Bool) (n : ℕ) (table : List A) (Matches : A → Type 0)
        → ((r : A) → (p r ≡ true) ↔ Matches r)
        → Page key n (λ r. In r table × Matches r) (take n (order.sort (keep p table)))
    select-Page order p n table Matches iff = record {
      few = omega (arith, length-take n (order.sort (keep p table)));
      ordered = take-Descending n (order.sort (keep p table)) (order.ordered (keep p table));
      sound = λ r m.
          let kept =
            (In-keep_iff p r table).0
              ((order.members (keep p table) r).0 (In-take n r (order.sort (keep p table)) m)) in
          (kept.0, (iff r).0 kept.1);
      complete = λ r m.
          take_complete n (order.sort (keep p table)) r (order.ordered (keep p table))
            ((order.members (keep p table) r).1 ((In-keep_iff p r table).1 (m.0, (iff r).1 m.1)));
    }

abbrev pub Below : ℕ → ℤ → Type 0
Below n (pos bound) = n < bound
Below n (negsuc _) = ⊥

abbrev pub AtMost : ℕ → ℤ → Type 0
AtMost n (pos bound) = n ≤ bound
AtMost n (negsuc _) = ⊥

abbrev pub AtLeast : ℕ → ℤ → Type 0
AtLeast n (pos bound) = bound ≤ n
AtLeast n (negsuc _) = Unit

-- A filter on the first topic, if there is one.
abbrev pub Topic : Option Bytes → Option Bytes → Type 0
Topic none topic0 = Unit
Topic (some t) topic0 = topic0 ≡ some t

below_iff : (n : ℕ) (b : ℤ) → (below n b ≡ true) ↔ Below n b
below_iff n (pos b) = (λ h. ground (arith, h), λ h. ground (arith, h))
below_iff n (negsuc b) = (λ h. ground (arith, h), λ h. absurd h)

at_most_iff : (n : ℕ) (b : ℤ) → (at_most n b ≡ true) ↔ AtMost n b
at_most_iff n (pos b) = (λ h. ground (arith, h), λ h. ground (arith, h))
at_most_iff n (negsuc b) = (λ h. ground (arith, h), λ h. absurd h)

at_least_iff : (n : ℕ) (b : ℤ) → (at_least n b ≡ true) ↔ AtLeast n b
at_least_iff n (pos b) = (λ h. ground (arith, h), λ h. ground (arith, h))
at_least_iff n (negsuc b) = (λ h. tt, λ h. refl)

topic_matches_iff : (t u : Option Bytes) → (topic_matches t u ≡ true) ↔ Topic t u
unfolding topic_matches
topic_matches_iff none u = (λ h. tt, λ h. refl)
topic_matches_iff (some t) none = (λ h. ground (arith, h), λ h. cc)
topic_matches_iff (some t) (some u) =
    let same = bytes_eq_iff u t in (λ h. ap some (same.0 h), λ h. same.1 (some-injective _ _ h))

&&_iff : {P Q : Type 0} (a b : Bool) → (a ≡ true) ↔ P → (b ≡ true) ↔ Q → ((a && b) ≡ true) ↔ (P × Q)
&&_iff a b p q = (
  λ h. (p.0 (ground (arith, h)), q.0 (ground (arith, h))),
  λ h. let x = p.1 h.0 in let y = q.1 h.1 in ground (arith, x, y),
)

pub of_address_iff :
    (address : Bytes) (before_block : ℤ) (r : AddressTransaction)
    → (of_address address before_block r ≡ true)
      ↔ ((r.address ≡ address) × Below r.block_number before_block)
unfolding of_address
of_address_iff address before_block r =
    &&_iff _ _ (bytes_eq_iff r.address address) (below_iff r.block_number before_block)

pub of_contract_iff :
    (address : Bytes) (from_block to_block : ℤ) (topic0 : Option Bytes) (r : Log)
    → (of_contract address from_block to_block topic0 r ≡ true) ↔ (
        (r.address ≡ address)
        × (AtLeast r.block_number from_block
            × (AtMost r.block_number to_block × Topic topic0 r.topic0)))
unfolding of_contract
of_contract_iff address from_block to_block topic0 r = &&_iff _ _ (bytes_eq_iff r.address address) (
    &&_iff _ _ (at_least_iff r.block_number from_block)
      (&&_iff _ _ (at_most_iff r.block_number to_block) (topic_matches_iff topic0 r.topic0)))
