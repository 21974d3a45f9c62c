-- ===== src/Cache/Laws.antt =====
-- The entries of the cache of src/intelligence/cache.rs.
use mathlib.Core.Path.{subst}
use mathlib.Core.Option.{some-injective, none-ne-some}
use chain_lens.Base.{
  ℕ, ◌≤◌, ◌<◌, ◌≡◌, ◌≢◌, refl, sym, ◌∙◌, none, some, List, [], ◌∷◌, Bool, false, not, leb, length,
  keep, All, bytes_eq, bytes_eq_refl, bytes_eq_iff, ne→bytes_eq, arith, inl, inr, Bool-cases, max,
}
use chain_lens.Domain.{Bytes}
use chain_lens.Cache.{CacheEntry, IntelligenceCache, find, without, older, oldest}

abbrev pub Entries : Type 0 → Type 0
Entries T = List (Bytes × CacheEntry T)

-- The keys of a hash map are distinct.
abbrev pub Distinct : {T : Type 0} → List (Bytes × CacheEntry T) → Type 0
Distinct [] = Unit
Distinct (p ∷ ps) = (find p.0 ps ≡ none) × Distinct ps

module _ {T : Type 0} where
  -- A cache holds a key once, and no more entries than its bound; it always has room for one.
  pub record IsValid (cache : IntelligenceCache T) : Type 0 where
    pub distinct : Distinct cache.entries
    pub bounded : length cache.entries ≤ max cache.max_entries 1

  pub find-keep-none :
      (p : Bytes × CacheEntry T → Bool) (k : Bytes) (es : Entries T)
      → find k es ≡ none
      → find k (keep p es) ≡ none
  unfolding find
  find-keep-none p k [] h = refl
  find-keep-none p k (e ∷ es) h = ground (arith, find-keep-none p k es)

  pub find-without : (key : Bytes) (es : Entries T) → find key (without key es) ≡ none
  unfolding find without
  find-without key [] = refl
  find-without key (e ∷ es) = ground (arith, find-without key es)

  pub find-without_other :
      (k key : Bytes) (es : Entries T) → k ≢ key → find k (without key es) ≡ find k es
  unfolding find without
  find-without_other k key [] ne = refl
  find-without_other k key (e ∷ es) ne = elim (Bool-cases (bytes_eq key e.0)) [
    | inr other ↦ ground (arith, find-without_other k key es ne)
    | inl same ↦
        let is : key ≡ e.0 = (bytes_eq_iff key e.0).0 same in
        let differs : bytes_eq k e.0 ≡ false = ne→bytes_eq k e.0 (λ h. ne (h ∙ sym is)) in
        ground (arith, find-without_other k key es ne)
  ]

  pub Distinct-keep :
      (p : Bytes × CacheEntry T → Bool) (es : Entries T) → Distinct es → Distinct (keep p es)
  Distinct-keep p [] d = tt
  Distinct-keep p (e ∷ es) d = elim (Bool-cases (p e)) [
    | inl stays ↦ rw stays (find-keep-none p e.0 es d.0, Distinct-keep p es d.1)
    | inr goes ↦ rw goes (Distinct-keep p es d.1)
  ]

  pub length-keep :
      (p : Bytes × CacheEntry T → Bool) (es : Entries T) → length (keep p es) ≤ length es
  length-keep p [] = omega arith
  length-keep p (e ∷ es) = ground (arith, length-keep p es)

  pub length-without :
      (key : Bytes) (es : Entries T) → find key es ≢ none → length (without key es) < length es
  unfolding find without
  length-without key [] h = absurd (h refl)
  length-without key (e ∷ es) h = elim (Bool-cases (bytes_eq key e.0)) [
    | inl same ↦ ground (arith, length-keep (λ p. not (bytes_eq key p.0)) es)
    | inr other ↦ ground (arith, length-without key es (λ n. h (ground (arith, n))))
  ]

  All-later :
      (a b : ℕ) (es : Entries T)
      → a ≤ b
      → All (λ q. b ≤ q.1.inserted_at) es
      → All (λ q. a ≤ q.1.inserted_at) es
  All-later a b [] l h = tt
  All-later a b (e ∷ es) l h = (omega (arith, h.0), All-later a b es l h.1)

  abbrev pub Oldest : Entries T → Bytes × CacheEntry T → Type 0
  Oldest es p = (find p.0 es ≢ none) × All (λ q. p.1.inserted_at ≤ q.1.inserted_at) es

  found-head : (e : Bytes × CacheEntry T) (es : Entries T) → find e.0 (e ∷ es) ≢ none
  unfolding find
  found-head e es h = absurd (ground (arith, bytes_eq_refl e.0))

  found-tail :
      (k : Bytes) (e : Bytes × CacheEntry T) (es : Entries T)
      → find k es ≢ none
      → find k (e ∷ es) ≢ none
  unfolding find
  found-tail k e es h n = elim (Bool-cases (bytes_eq k e.0)) [
    | inl same ↦ absurd (ground (arith, n))
    | inr other ↦ h (ground (arith, n))
  ]

  -- The oldest entry is one of them, and no entry was inserted before it.
  pub oldest-Oldest : (es : Entries T) {p : Bytes × CacheEntry T} → oldest es ≡ some p → Oldest es p
  unfolding oldest older
  oldest-Oldest [] h = absurd (none-ne-some _ h)
  oldest-Oldest (e ∷ []) h =
      subst (Oldest (e ∷ [])) (some-injective _ _ h) (found-head e [], (omega arith, tt))
  oldest-Oldest (e ∷ f ∷ es) {p} h =
      let q = older f (oldest es) in
      let (there, least) = oldest-Oldest (f ∷ es) {p = q} refl in
      elim (Bool-cases (leb e.1.inserted_at q.1.inserted_at)) [
        | inl first ↦
            let is : ◌≡◌ {A = Bytes × CacheEntry T} e p = ground arith in
            subst (Oldest (e ∷ f ∷ es)) is (
              found-head e (f ∷ es),
              (omega arith, All-later _ q.1.inserted_at (f ∷ es) (ground arith) least),
            )
        | inr later ↦
            let is : ◌≡◌ {A = Bytes × CacheEntry T} q p = ground arith in
            subst (Oldest (e ∷ f ∷ es)) is (found-tail q.0 e (f ∷ es) there, (ground arith, least))
      ]
