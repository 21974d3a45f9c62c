-- ===== src/Intelligence/Actions/Summary.antt =====
-- The summary and the contracts of `explain_transaction` in src/intelligence/actions.rs.
use mathlib.Core.Path.{subst}
use chain_lens.Base.{
  ◌≤◌, ◌≡◌, refl, sym, ◌↔◌, ◌⊎◌, inl, inr, Option, none, some, List, [], ◌∷◌, ◌++◌, length, arith,
  Bool-cases, any, any_iff, bytes_eq, Outcome, ok, ◌>>=◌, In, In-append_iff, Nodup, Nodup-append,
}
use chain_lens.Domain.{Bytes}
use chain_lens.Decode.Erc20.Slices.{slice_lem}
use chain_lens.Intelligence.Actions.{
  ActionType, TransactionAction, eth_transfer, erc20_transfer, erc20_approval, erc721_transfer,
  erc1155_transfer, contract_creation, contract_call, swap, unknown, ExplainError,
}
use chain_lens.Intelligence.Actions.Explain.{involve, short, short_or, build_summary}
use chain_lens.Intelligence.Actions.Returns.{Long, Shaped}

pub involve-Nodup : (found rows : List Bytes) → Nodup found → Nodup (involve found rows)
unfolding involve
involve-Nodup found [] n = n
involve-Nodup found (a ∷ rows) n = elim (Bool-cases (any (bytes_eq a) found)) [
  | inl known ↦ rw known (involve-Nodup found rows n)
  | inr new ↦
      let fresh : Nodup (found ++ a ∷ []) =
        Nodup-append found (a ∷ []) n ((λ m. m), tt)
          (λ b m l. elim l [
            | inl here ↦
                let seen = (any_iff a found).1 (subst (λ c. In c found) here m) in
                ground (arith, seen, new)
            | inr nowhere ↦ nowhere
          ]) in
      rw new (involve-Nodup (found ++ a ∷ []) rows fresh)
]

pub involve-In :
    (found rows : List Bytes) (b : Bytes) → In b (involve found rows) ↔ (In b found ⊎ In b rows)
unfolding involve
involve-In found [] b = (inl, λ m. elim m [ inl l ↦ l | inr nowhere ↦ absurd nowhere ])
involve-In found (a ∷ rows) b = elim (Bool-cases (any (bytes_eq a) found)) [
  | inl known ↦
      let i = involve-In found rows b in
      let there = (any_iff a found).0 known in
      rw known (
        λ m. elim (i.0 m) [ inl l ↦ inl l | inr l ↦ inr (inr l) ],
        λ m. elim m [
          | inl l ↦ i.1 (inl l)
          | inr (inl here) ↦ i.1 (inl (subst (λ c. In c found) (sym here) there))
          | inr (inr l) ↦ i.1 (inr l)
        ],
      )
  | inr new ↦
      let i = involve-In (found ++ a ∷ []) rows b in
      let j = In-append_iff b found (a ∷ []) in
      rw new (
        λ m. elim (i.0 m) [
          | inl l ↦ elim (j.0 l) [
            | inl old ↦ inl old
            | inr (inl here) ↦ inr (inl here)
            | inr (inr nowhere) ↦ absurd nowhere
          ]
          | inr l ↦ inr (inr l)
        ],
        λ m. elim m [
          | inl l ↦ i.1 (inl (j.1 (inl l)))
          | inr (inl here) ↦ i.1 (inl (j.1 (inr (inl here))))
          | inr (inr l) ↦ i.1 (inr l)
        ],
      )
]

short-total : (s : Bytes) → 10 ≤ length s → (r : Bytes) × (short s ≡ ok r)
unfolding short
short-total s h = (_, slice_lem {E = ExplainError} s 0 10 (omega arith) h)

short_or-total :
    (default : Bytes) (o : Option Bytes) → Long o → (r : Bytes) × (short_or default o ≡ ok r)
unfolding short_or
short_or-total default none h = (default, refl)
short_or-total default (some s) h = short-total s h

abbrev pub Total : {A : Type 0} → Outcome ExplainError A → Type 0
Total {A} o = (a : A) × (o ≡ ok a)

pub >>=-Total :
    {A B : Type 0} (m : Outcome ExplainError A) (f : A → Outcome ExplainError B)
    → Total m
    → ((a : A) → Total (f a))
    → Total (m >>= f)
>>=-Total m f (a, e) g = rw e (g a)

module _ (from value_eth : Bytes) (to : Option Bytes) (from_Long : 10 ≤ length from)
    (to_Long : Long to) where
  with_sender : (f : Bytes → Bytes) → Total (short from >>= λ sender. ok (f sender))
  with_sender f = >>=-Total (short from) _ (short-total from from_Long) (λ s. (f s, refl))

  with_both :
      (default : Bytes) (o : Option Bytes) (f : Bytes → Bytes → Bytes)
      → Long o
      → Total (short from >>= λ sender. short_or default o >>= λ r. ok (f sender r))
  with_both default o f h =
      >>=-Total (short from) _ (short-total from from_Long)
        (λ s. >>=-Total (short_or default o) _ (short_or-total default o h) (λ r. (f s r, refl)))

  summary-Total :
      (kind : ActionType) (primary : TransactionAction) (rest : List TransactionAction)
      → primary.action_type ≡ kind
      → Long primary.to
      → Long primary.spender
      → Total (build_summary (primary ∷ rest) from to value_eth)
  unfolding build_summary
  summary-Total eth_transfer p rest k h l = rw k (with_both _ to _ to_Long)
  summary-Total erc20_transfer p rest k h l = rw k (with_both _ p.to _ h)
  summary-Total erc20_approval p rest k h l =
      rw k (>>=-Total (short_or _ p.spender) _ (short_or-total _ p.spender l) (λ s. with_sender _))
  summary-Total erc721_transfer p rest k h l = rw k (with_both _ p.to _ h)
  summary-Total erc1155_transfer p rest k h l = rw k (with_sender _)
  summary-Total contract_creation p rest k h l = rw k (with_sender _)
  summary-Total contract_call p rest k h l =
      rw k (>>=-Total (short_or _ to) _ (short_or-total _ to to_Long) (λ s. (_, refl)))
  summary-Total swap p rest k h l = rw k (with_sender _)
  summary-Total unknown p rest k h l = rw k (with_sender _)

  pub build_summary-Total :
      (actions : List TransactionAction)
      → Shaped actions
      → Total (build_summary actions from to value_eth)
  unfolding build_summary
  build_summary-Total [] s = with_sender _
  build_summary-Total (p ∷ rest) s = summary-Total p.action_type p rest refl s.1.0.0 s.1.0.1
