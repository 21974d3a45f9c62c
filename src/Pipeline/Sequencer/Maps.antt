-- ===== src/Pipeline/Sequencer/Maps.antt =====
-- The laws of the buffer's map.
use mathlib.Core.Path.{subst}
use chain_lens.Base.{
  ℕ, suc, ◌≡◌, ◌≢◌, refl, none, some, List, [], ◌∷◌, ◌++◌, Bool, true, false, ◌||◌, ltb, ◌==◌,
  length, arith, inl, inr, All, Bool-cases, Option-cases,
}
use chain_lens.Pipeline.Sequencer.{insert, remove}

module _ {B : Type 0} where
  abbrev pub has : ℕ → List (ℕ × B) → Bool
  has k [] = false
  has k ((j, _) ∷ m) = k == j || has k m

  pub has-append : (k : ℕ) (m m' : List (ℕ × B)) → has k (m ++ m') ≡ (has k m || has k m')
  has-append k [] m' = refl
  has-append k (x ∷ m) m' = ground (arith, has-append k m m')

  pub has-insert : (j k : ℕ) (b : B) (m : List (ℕ × B)) → has j (insert k b m) ≡ (j == k || has j m)
  unfolding insert
  has-insert j k b [] = ground arith
  has-insert j k b (x ∷ m) = ground (arith, has-insert j k b m)

  pub All-insert {κ} :
      (P : ℕ × B → Type κ) (k : ℕ) (b : B) (m : List (ℕ × B))
      → P (k, b)
      → All P m
      → All P (insert k b m)
  unfolding insert
  All-insert P k b [] h a = (h, tt)
  All-insert P k b (x ∷ m) h a = elim (Bool-cases (k == x.0)) [
    | inl same ↦ rw same (h, a.1)
    | inr other ↦ elim (Bool-cases (ltb k x.0)) [
      | inl before ↦ rw (other, before) (h, a)
      | inr after ↦ rw (other, after) (a.0, All-insert P k b m h a.1)
    ]
  ]

  pub remove-none : (k : ℕ) (m : List (ℕ × B)) → remove k m ≡ none → has k m ≡ false
  unfolding remove
  remove-none k [] h = refl
  remove-none k (x ∷ m) h = ground (arith, remove-none k m)

  -- What a removal takes, and what it leaves.
  pub remove-some :
      (k : ℕ) (m : List (ℕ × B)) {b : B} {m' : List (ℕ × B)}
      → remove k m ≡ some (b, m')
      → (has k m ≡ true) × (length m ≡ suc (length m')) × ((j : ℕ) → j ≢ k → has j m' ≡ has j m)
  unfolding remove
  remove-some k [] h = cc
  remove-some k (x ∷ m) {b} {m'} h = elim (Bool-cases (k == x.0)) [
    | inl same ↦ let e : m ≡ m' = ground arith in (ground arith, ground arith, λ j ne. ground arith)
    | inr other ↦ elim (Option-cases (remove k m)) [
      | inl nothing ↦ absurd (ground arith)
      | inr ((c, rest), found) ↦
          let (there, size, others) = remove-some k m found in
          (ground arith, ground arith, λ j ne. ground (arith, others j ne))
    ]
  ]

  pub remove-All {κ} :
      (P : ℕ × B → Type κ) (k : ℕ) (m : List (ℕ × B)) {b : B} {m' : List (ℕ × B)}
      → remove k m ≡ some (b, m')
      → All P m
      → P (k, b) × All P m'
  unfolding remove
  remove-All P k [] h a = cc
  remove-All P k (x ∷ m) {b} {m'} h a = elim (Bool-cases (k == x.0)) [
    | inl same ↦
        let e : m ≡ m' = ground arith in
        let e' : ◌≡◌ {A = ℕ × B} x (k, b) = ground arith in (subst P e' a.0, subst (All P) e a.1)
    | inr other ↦ elim (Option-cases (remove k m)) [
      | inl nothing ↦ absurd (ground arith)
      | inr ((c, rest), found) ↦
          let (here, there) = remove-All P k m found a.1 in
          let e : ◌≡◌ {A = ℕ × B} (k, c) (k, b) = ground arith in
          let e' : x ∷ rest ≡ m' = ground arith in (subst P e here, subst (All P) e' (a.0, there))
    ]
  ]
