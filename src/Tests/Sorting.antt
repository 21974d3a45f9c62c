-- ===== src/Tests/Sorting.antt =====
-- A sorting of rows, for the tests of src/api/handlers.rs.
use chain_lens.Base.{
  ℕ, suc, ◌≡◌, refl, ap, ◌∙◌, ◌↔◌, ◌⊎◌, inl, inr, List, [], ◌∷◌, true, false, if◌then◌else◌, length,
  All, In, arith, Bool-cases,
}
use chain_lens.Api.{descends, Descending, OrderBy}

descends-total : (a b : ℕ × ℕ) → descends a b ≡ false → descends b a ≡ true
descends-total a b h = ground (arith, h)

descends_trans : (a b c : ℕ × ℕ) → descends a b ≡ true → descends b c ≡ true → descends a c ≡ true
descends_trans a b c h k = ground (arith, h, k)

module _ {A : Type 0} (key : A → ℕ × ℕ) where
  abbrev insert : A → List A → List A
  insert x [] = x ∷ []
  insert x (y ∷ ys) =
      let rest = insert x ys in if descends (key x) (key y) then x ∷ (y ∷ ys) else y ∷ rest

  abbrev sort : List A → List A
  sort [] = []
  sort (x ∷ xs) = insert x (sort xs)

  In-insert_iff : (r x : A) (ys : List A) → In r (insert x ys) ↔ ((r ≡ x) ⊎ In r ys)
  In-insert_iff r x [] = (λ m. m, λ m. m)
  In-insert_iff r x (y ∷ ys) =
      let i = In-insert_iff r x ys in
      elim (Bool-cases (descends (key x) (key y))) [
        | inl first ↦ rw first (λ m. m, λ m. m)
        | inr later ↦ rw later (
          λ m. elim m [
            | inl e ↦ inr (inl e)
            | inr l ↦ elim (i.0 l) [ inl e ↦ inl e | inr k ↦ inr (inr k) ]
          ],
          λ m. elim m [
            | inl e ↦ inr (i.1 (inl e))
            | inr (inl e) ↦ inl e
            | inr (inr l) ↦ inr (i.1 (inr l))
          ],
        )
      ]

  length-insert : (x : A) (ys : List A) → length (insert x ys) ≡ suc (length ys)
  length-insert x [] = refl
  length-insert x (y ∷ ys) = elim (Bool-cases (descends (key x) (key y))) [
    | inl first ↦ rw first refl
    | inr later ↦ rw later (ap suc (length-insert x ys))
  ]

  All-above :
      (a b : A) (ys : List A)
      → descends (key a) (key b) ≡ true
      → All (λ y. descends (key b) (key y) ≡ true) ys
      → All (λ y. descends (key a) (key y) ≡ true) ys
  All-above a b [] h each = tt
  All-above a b (y ∷ ys) h each =
      (descends_trans (key a) (key b) (key y) h each.0, All-above a b ys h each.1)

  All-insert : (P : A → Type 0) (x : A) (ys : List A) → P x → All P ys → All P (insert x ys)
  All-insert P x [] p each = (p, tt)
  All-insert P x (y ∷ ys) p each = elim (Bool-cases (descends (key x) (key y))) [
    | inl first ↦ rw first (p, each)
    | inr later ↦ rw later (each.0, All-insert P x ys p each.1)
  ]

  insert-Descending : (x : A) (ys : List A) → Descending key ys → Descending key (insert x ys)
  insert-Descending x [] d = (tt, tt)
  insert-Descending x (y ∷ ys) d = elim (Bool-cases (descends (key x) (key y))) [
    | inl first ↦ rw first ((first, All-above x y ys first d.0), d)
    | inr later ↦ rw later (
      All-insert (λ z. descends (key y) (key z) ≡ true) x ys (descends-total (key x) (key y) later)
          d.0,
      insert-Descending x ys d.1,
    )
  ]

  pub insertion : OrderBy A key
  insertion = record { sort = sort; members = members; size = size; ordered = ordered }
    where
      members : (rows : List A) (r : A) → In r (sort rows) ↔ In r rows
      members [] r = (λ m. m, λ m. m)
      members (x ∷ xs) r =
          let i = In-insert_iff r x (sort xs) in
          let j = members xs r in
          (
            λ m. elim (i.0 m) [ inl e ↦ inl e | inr l ↦ inr (j.0 l) ],
            λ m. i.1 (elim m [ inl e ↦ inl e | inr l ↦ inr (j.1 l) ]),
          )

      size : (rows : List A) → length (sort rows) ≡ length rows
      size [] = refl
      size (x ∷ xs) = length-insert x (sort xs) ∙ ap suc (size xs)

      ordered : (rows : List A) → Descending key (sort rows)
      ordered [] = tt
      ordered (x ∷ xs) = insert-Descending x (sort xs) (ordered xs)
