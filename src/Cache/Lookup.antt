-- ===== src/Cache/Lookup.antt =====
-- Lookups in the cache of src/intelligence/cache.rs.
use mathlib.Core.Path.{subst}
use chain_lens.Base.{
  ℕ, ◌-◌, ◌≤◌, ◌≡◌, ◌≢◌, refl, sym, Option, none, some, [], ◌∷◌, true, false, not, leb, ltb, length,
  arith, inl, inr, Bool-cases, Option-cases, bytes_eq, bytes_eq_refl, bytes_eq_iff, ne→bytes_eq,
  keep, if◌then◌else◌,
}
use chain_lens.Domain.{Bytes}
use chain_lens.Cache.{
  CacheEntry, IntelligenceCache, is_expired, find, insert, oldest, without_oldest, get, evict,
  set_with_ttl, cleanup_expired,
}
use chain_lens.Cache.Laws.{
  Entries, Distinct, Oldest, find-without_other, find-keep-none, oldest-Oldest,
}

module _ {T : Type 0} where
  -- A stored value is found until its time is over, and not afterwards.
  pub get-set_with_ttl :
      (now later : ℕ) (key : Bytes) (value : T) (ttl : ℕ) (cache : IntelligenceCache T)
      → get later key (set_with_ttl now key value ttl cache)
        ≡ (if ltb ttl (later - now) then none else some value)
  unfolding get set_with_ttl insert find is_expired
  get-set_with_ttl now later key value ttl cache = ground (arith, bytes_eq_refl key)

  -- The entry that `set` removes, if it removes one.
  abbrev pub Evicts : IntelligenceCache T → Bytes × CacheEntry T → Type 0
  Evicts cache p =
      (leb cache.max_entries (length cache.entries) ≡ true) × (oldest cache.entries ≡ some p)

  find-evict :
      (k : Bytes) (cache : IntelligenceCache T)
      → ((p : Bytes × CacheEntry T) → Evicts cache p → k ≢ p.0)
      → find k (evict cache) ≡ find k cache.entries
  unfolding evict without_oldest
  find-evict k cache h = elim (Bool-cases (leb cache.max_entries (length cache.entries))) [
    | inr room ↦ rw room refl
    | inl full ↦ elim (Option-cases (oldest cache.entries)) [
      | inl nothing ↦ ground (arith, full, nothing)
      | inr (p, found) ↦
          ground (arith, full, found, find-without_other k p.0 cache.entries (h p (full, found)))
    ]
  ]

  -- Storing a value changes no other lookup, now or later, but that of the key that goes because the
  -- cache is full; and what goes is an entry before which no other was inserted.
  pub set_with_ttl_keeps :
      (now later : ℕ) (key k : Bytes) (value : T) (ttl : ℕ) (cache : IntelligenceCache T)
      → k ≢ key
      → (((p : Bytes × CacheEntry T) → Evicts cache p → k ≢ p.0)
          → get later k (set_with_ttl now key value ttl cache) ≡ get later k cache)
        × ((p : Bytes × CacheEntry T) → Evicts cache p → Oldest cache.entries p)
  unfolding get set_with_ttl insert
  set_with_ttl_keeps now later key k value ttl cache ne = (
    λ h. ground (arith, find-evict k cache h, find-without_other k key (evict cache) ne, find-set),
    λ p e. oldest-Oldest cache.entries e.1,
  )
    where
      find-set : bytes_eq k key ≡ false
      find-set = ne→bytes_eq k key ne

  module _ (now later : ℕ) (after : now ≤ later) where
    abbrev value_at : Option (CacheEntry T) → Option T
    value_at none = none
    value_at (some e) = if is_expired later e then none else some e.value

    value_at-find :
        (k : Bytes) (es : Entries T)
        → Distinct es
        → value_at (find k (keep (λ p. not (is_expired now p.1)) es)) ≡ value_at (find k es)
    unfolding find is_expired
    value_at-find k [] d = refl
    value_at-find k (e ∷ es) d = elim (Bool-cases (bytes_eq k e.0)) [
      | inl same ↦
          let is : e.0 ≡ k = sym ((bytes_eq_iff k e.0).0 same) in
          let once : find k es ≡ none = subst (λ j. find j es ≡ none) is d.0 in
          let gone = find-keep-none (λ p. not (is_expired now p.1)) k es once in
          ground (arith, same, gone, after)
      | inr other ↦ ground (arith, other, value_at-find k es d.1)
    ]

    -- Cleaning up is never noticed: what a lookup finds from then on is what it would have found
    -- without it, in a cache that holds every key once.
    pub get-cleanup_expired :
        (k : Bytes) (cache : IntelligenceCache T)
        → Distinct cache.entries
        → get later k (cleanup_expired now cache) ≡ get later k cache
    unfolding get cleanup_expired is_expired
    get-cleanup_expired k cache d = value_at-find k cache.entries d
