-- ===== src/Cache/Bounds.antt =====
-- The size of the cache of src/intelligence/cache.rs.
use chain_lens.Base.{
  ℕ, ◌+◌, ◌≤◌, ◌≡◌, refl, Option, none, some, [], ◌∷◌, not, leb, length, arith, inl, inr,
  Bool-cases, Option-cases, max, bytes_eq,
}
use chain_lens.Domain.{Bytes}
use chain_lens.Cache.{
  CacheEntry, IntelligenceCache, without, insert, oldest, without_oldest, evict, set_with_ttl,
}
use chain_lens.Cache.Laws.{
  Entries, Distinct, IsValid, find-without, Distinct-keep, length-keep, length-without,
  oldest-Oldest,
}

module _ {T : Type 0} where
  oldest-none : (es : Entries T) → oldest es ≡ none → length es ≡ 0
  unfolding oldest
  oldest-none [] h = refl
  oldest-none (e ∷ es) h = absurd (ground (arith, h))

  without_oldest-length :
      (es : Entries T) → length (without_oldest (oldest es) es) + 1 ≤ max (length es) 1
  unfolding without_oldest
  without_oldest-length es = elim (Option-cases (oldest es)) [
    | inl nothing ↦ ground (arith, oldest-none es nothing)
    | inr (p, found) ↦ ground (arith, length-without p.0 es (oldest-Oldest es found).0)
  ]

  without_oldest-Distinct :
      (o : Option (Bytes × CacheEntry T)) (es : Entries T)
      → Distinct es
      → Distinct (without_oldest o es)
  unfolding without_oldest without
  without_oldest-Distinct none es d = d
  without_oldest-Distinct (some p) es d = Distinct-keep (λ q. not (bytes_eq p.0 q.0)) es d

  evict-Distinct : (cache : IntelligenceCache T) → Distinct cache.entries → Distinct (evict cache)
  unfolding evict
  evict-Distinct cache d = elim (Bool-cases (leb cache.max_entries (length cache.entries))) [
    | inl full ↦ rw full (without_oldest-Distinct (oldest cache.entries) cache.entries d)
    | inr room ↦ rw room d
  ]

  evict-length :
      (cache : IntelligenceCache T)
      → length cache.entries ≤ max cache.max_entries 1
      → length (evict cache) + 1 ≤ max cache.max_entries 1
  unfolding evict
  evict-length cache h = elim (Bool-cases (leb cache.max_entries (length cache.entries))) [
    | inl full ↦ ground (arith, full, without_oldest-length cache.entries)
    | inr room ↦ ground (arith, room)
  ]

  -- Storing a value in a valid cache leaves a valid cache: every key once, and no more entries than
  -- the bound, or one if the bound is zero.
  pub set_with_ttl-IsValid :
      (now : ℕ) (key : Bytes) (value : T) (ttl : ℕ) (cache : IntelligenceCache T)
      → IsValid cache
      → IsValid (set_with_ttl now key value ttl cache)
  unfolding set_with_ttl insert without
  set_with_ttl-IsValid now key value ttl cache v = record {
    distinct = (
      find-without key (evict cache),
      Distinct-keep (λ p. not (bytes_eq key p.0)) (evict cache) (evict-Distinct cache v.distinct),
    );
    bounded = omega (
      arith,
      evict-length cache v.bounded,
      length-keep (λ p. not (bytes_eq key p.0)) (evict cache),
    );
  }
