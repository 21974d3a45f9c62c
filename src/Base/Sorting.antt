-- ===== src/Base/Sorting.antt =====
-- `sort_by_key` with `Reverse`: a stable sort, the greatest key first.
use mathlib.Core.Path.{◌≡◌, refl, ap, ◌∙◌}
use mathlib.Core.Logic.{inl, inr}
use mathlib.Core.List.{List, [], ◌∷◌}
use native.Mathlib.Omega.{arith}
use Prim.Native.Nat.{ℕ, ◌≤◌}
use chain_lens.Base.Tests.{leb, ◌==◌, if◌then◌else◌, Bool-cases}
use chain_lens.Base.Lists.{All, keep}

module _ {A : Type 0} (key : A → ℕ) where
  unfoldable pub insert_by : A → List A → List A
  insert_by x [] = x ∷ []
  insert_by x (y ∷ ys) =
      let rest = insert_by x ys in if leb (key y) (key x) then x ∷ y ∷ ys else y ∷ rest

  unfoldable pub sort_by : List A → List A
  unfolding insert_by
  sort_by [] = []
  sort_by (x ∷ xs) = insert_by x (sort_by xs)

  -- From the greatest key to the least.
  abbrev pub Falling : List A → Type 0
  Falling [] = Unit
  Falling (x ∷ xs) = All (λ y. key y ≤ key x) xs × Falling xs

  All-insert_by : (P : A → Type 0) (x : A) (ys : List A) → P x → All P ys → All P (insert_by x ys)
  unfolding insert_by
  All-insert_by P x [] p each = (p, tt)
  All-insert_by P x (y ∷ ys) p each = elim (Bool-cases (leb (key y) (key x))) [
    | inl first ↦ rw first (p, each)
    | inr later ↦ rw later (each.0, All-insert_by P x ys p each.1)
  ]

  All-least : (a b : ℕ) (ys : List A) → a ≤ b → All (λ y. key y ≤ a) ys → All (λ y. key y ≤ b) ys
  All-least a b [] h each = tt
  All-least a b (y ∷ ys) h each = (omega (arith, h, each.0), All-least a b ys h each.1)

  insert_by-Falling : (x : A) (ys : List A) → Falling ys → Falling (insert_by x ys)
  unfolding insert_by
  insert_by-Falling x [] f = (tt, tt)
  insert_by-Falling x (y ∷ ys) f = elim (Bool-cases (leb (key y) (key x))) [
    | inl first ↦
        let small : key y ≤ key x = ground (arith, first) in
        rw first ((small, All-least (key y) (key x) ys small f.0), f)
    | inr later ↦ rw later (
      All-insert_by (λ z. key z ≤ key y) x ys (ground (arith, later)) f.0,
      insert_by-Falling x ys f.1,
    )
  ]

  pub sort_by-Falling : (xs : List A) → Falling (sort_by xs)
  unfolding sort_by
  sort_by-Falling [] = tt
  sort_by-Falling (x ∷ xs) = insert_by-Falling x (sort_by xs) (sort_by-Falling xs)

  insert_by_keeps :
      (k : ℕ) (x : A) (ys : List A)
      → keep (λ a. key a == k) (insert_by x ys) ≡ keep (λ a. key a == k) (x ∷ ys)
  unfolding insert_by
  insert_by_keeps k x [] = refl
  insert_by_keeps k x (y ∷ ys) = elim (Bool-cases (leb (key y) (key x))) [
    | inl first ↦ rw first refl
    | inr later ↦ let rest = insert_by_keeps k x ys in rw later (ground (arith, rest, later))
  ]

  -- The elements of a key stay in their order.
  pub sort_by_keeps :
      (k : ℕ) (xs : List A) → keep (λ a. key a == k) (sort_by xs) ≡ keep (λ a. key a == k) xs
  unfolding sort_by
  sort_by_keeps k [] = refl
  sort_by_keeps k (x ∷ xs) =
      insert_by_keeps k x (sort_by xs)
      ∙ ap (λ l. if key x == k then x ∷ l else l) (sort_by_keeps k xs)

  pub All-sort_by : (P : A → Type 0) (xs : List A) → All P xs → All P (sort_by xs)
  unfolding sort_by
  All-sort_by P [] each = tt
  All-sort_by P (x ∷ xs) each = All-insert_by P x (sort_by xs) each.0 (All-sort_by P xs each.1)
