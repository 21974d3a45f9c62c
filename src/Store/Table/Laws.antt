-- ===== src/Store/Table/Laws.antt =====
-- The laws of inserting rows into a table.
use mathlib.Core.List.{append_assoc}
use mathlib.Core.Path.{subst}
use chain_lens.Base.{
  List, [], ◌∷◌, ◌++◌, ◌≡◌, refl, sym, ap, ◌∙◌, Bool, true, false, ok, any, keep, arith, All,
  All-append, Bool-cases, inl, inr, >>=-eq-ok,
}
use chain_lens.Store.Table.{insert, insert_all, Unique}

pub any-append_right {ℓ} :
    {A : Type ℓ} (p : A → Bool) (xs ys : List A) → any p ys ≡ true → any p (xs ++ ys) ≡ true
any-append_right p [] ys h = h
any-append_right p (x ∷ xs) ys h = ground (arith, any-append_right p xs ys h)

pub any-keep-false {ℓ} :
    {A : Type ℓ} (q p : A → Bool) (t : List A) → any q t ≡ false → any q (keep p t) ≡ false
any-keep-false q p [] h = refl
any-keep-false q p (x ∷ t) h = ground (arith, any-keep-false q p t)

pub Unique-keep {ℓ} :
    {R : Type ℓ} (same : R → R → Bool) (p : R → Bool) (t : List R)
    → Unique same t
    → Unique same (keep p t)
Unique-keep same p [] u = tt
Unique-keep same p (row ∷ t) u =
    ground (arith, Unique-keep same p t u.1, any-keep-false (same row) p t u.0)

module _ {R : Type 0} (same : R → R → Bool) (ref : R → Bool) where
  insert-appends :
      (row : R) (t : List R) {t' : List R}
      → insert same ref row t ≡ ok t'
      → (new : List R) × (t' ≡ new ++ t) × All (λ r. ref r ≡ true) new
  unfolding insert
  insert-appends row t h = elim (Bool-cases (any (same row) t)) [
    | inl old ↦ ([], ground arith, tt)
    | inr fresh ↦ (row ∷ [], ground arith, ground arith)
  ]

  -- What is inserted stays, and every new row meets its references.
  pub insert_all-appends :
      (rows t : List R) {t' : List R}
      → insert_all same ref rows t ≡ ok t'
      → (new : List R) × (t' ≡ new ++ t) × All (λ r. ref r ≡ true) new
  unfolding insert_all
  insert_all-appends [] t h = ([], ground arith, tt)
  insert_all-appends (row ∷ rows) t h =
      let (t1, e1, h1) = >>=-eq-ok (insert same ref row t) (insert_all same ref rows) h in
      let (new, e, r) = insert-appends row t e1 in
      let (later, e', r') = insert_all-appends rows t1 h1 in
      (
        later ++ new,
        e' ∙ (ap (λ u. later ++ u) e ∙ sym (append_assoc later new t)),
        All-append (λ r. ref r ≡ true) later new r' r,
      )

  insert-Unique :
      (row : R) (t : List R) {t' : List R}
      → Unique same t
      → insert same ref row t ≡ ok t'
      → Unique same t'
  unfolding insert
  insert-Unique row t {t'} u h = elim (Bool-cases (any (same row) t)) [
    | inl old ↦ let e : t ≡ t' = ground arith in subst (Unique same) e u
    | inr fresh ↦ let e : row ∷ t ≡ t' = ground arith in subst (Unique same) e (fresh, u)
  ]

  pub insert_all-Unique :
      (rows t : List R) {t' : List R}
      → Unique same t
      → insert_all same ref rows t ≡ ok t'
      → Unique same t'
  unfolding insert_all
  insert_all-Unique [] t {t'} u h = let e : t ≡ t' = ground arith in subst (Unique same) e u
  insert_all-Unique (row ∷ rows) t u h =
      let (t1, e1, h1) = >>=-eq-ok (insert same ref row t) (insert_all same ref rows) h in
      insert_all-Unique rows t1 (insert-Unique row t u e1) h1

  insert-Holds :
      (row : R) (t : List R) {t' : List R}
      → same row row ≡ true
      → insert same ref row t ≡ ok t'
      → any (same row) t' ≡ true
  unfolding insert
  insert-Holds row t s h = ground arith

  -- Afterwards every row's key is there.
  pub insert_all-Holds :
      (rows t : List R) {t' : List R}
      → ((r : R) → same r r ≡ true)
      → insert_all same ref rows t ≡ ok t'
      → All (λ row. any (same row) t' ≡ true) rows
  unfolding insert_all
  insert_all-Holds [] t s h = tt
  insert_all-Holds (row ∷ rows) t {t'} s h =
      let (t1, e1, h1) = >>=-eq-ok (insert same ref row t) (insert_all same ref rows) h in
      let (later, e, _) = insert_all-appends rows t1 h1 in
      (
        rw e (any-append_right (same row) later t1 (insert-Holds row t (s row) e1)),
        insert_all-Holds rows t1 s h1,
      )

  -- Rows whose keys are all there are no news.
  pub insert_all_no_news :
      (rows t : List R)
      → All (λ row. any (same row) t ≡ true) rows
      → insert_all same ref rows t ≡ ok t
  unfolding insert_all insert
  insert_all_no_news [] t h = refl
  insert_all_no_news (row ∷ rows) t h = rw h.0 (insert_all_no_news rows t h.1)
