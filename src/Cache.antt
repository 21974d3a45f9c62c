-- ===== src/Cache.antt =====
-- The caches with expiry: src/intelligence/cache.rs, and src/api/cache.rs, whose cache of HTTP
-- answers has the same operations and one more. The entries of the hash map are a list in the order
-- of its iteration. Time is a number that the caller's clock gives.
pub mod Laws
pub mod Bounds
pub mod Lookup
pub mod Api
use chain_lens.Base.{
  ℕ, ◌+◌, ◌-◌, Option, none, some, List, [], ◌∷◌, Bool, true, false, not, ◌&&◌, ltb, leb, ◌==◌,
  if◌then◌else◌, length, keep, bytes_eq,
}
use chain_lens.Domain.{Bytes}

module _ (T : Type 0) where
  pub record CacheEntry : Type 0 where
    pub value : T
    pub inserted_at : ℕ
    pub ttl : ℕ

  pub record IntelligenceCache : Type 0 where
    pub entries : List (Bytes × CacheEntry)
    pub max_entries : ℕ
    pub default_ttl : ℕ

module _ {T : Type 0} where
  unfoldable pub is_expired : (now : ℕ) → CacheEntry T → Bool
  is_expired now e = ltb e.ttl (now - e.inserted_at)

  unfoldable pub new : ℕ → ℕ → IntelligenceCache T
  new max_entries default_ttl = record {
    entries = [];
    max_entries = max_entries;
    default_ttl = default_ttl;
  }

  -- `HashMap::get`, `HashMap::remove` and `HashMap::insert`.
  unfoldable pub find : Bytes → List (Bytes × CacheEntry T) → Option (CacheEntry T)
  find key [] = none
  find key ((k, e) ∷ es) = if bytes_eq key k then some e else find key es

  unfoldable pub without : Bytes → List (Bytes × CacheEntry T) → List (Bytes × CacheEntry T)
  without key es = keep (λ p. not (bytes_eq key p.0)) es

  unfoldable pub insert :
      Bytes → CacheEntry T → List (Bytes × CacheEntry T) → List (Bytes × CacheEntry T)
  unfolding without
  insert key e es = (key, e) ∷ without key es

  -- `min_by_key` gives the first of the entries that were inserted earliest.
  unfoldable pub older :
      (Bytes × CacheEntry T) → Option (Bytes × CacheEntry T) → Bytes × CacheEntry T
  older p none = p
  older p (some q) = if leb p.1.inserted_at q.1.inserted_at then p else q

  unfoldable pub oldest : List (Bytes × CacheEntry T) → Option (Bytes × CacheEntry T)
  unfolding older
  oldest [] = none
  oldest (p ∷ ps) = some (older p (oldest ps))

  unfoldable pub get : (now : ℕ) → Bytes → IntelligenceCache T → Option T
  unfolding find is_expired
  get now key cache = elim (find key cache.entries) [
    | none ↦ none
    | some e ↦ if is_expired now e then none else some e.value
  ]

  unfoldable pub without_oldest :
      Option (Bytes × CacheEntry T) → List (Bytes × CacheEntry T) → List (Bytes × CacheEntry T)
  unfolding without
  without_oldest none es = es
  without_oldest (some p) es = without p.0 es

  -- The first half of `set`: the entry that goes when the cache is full.
  unfoldable pub evict : IntelligenceCache T → List (Bytes × CacheEntry T)
  unfolding oldest without_oldest
  evict cache =
      if leb cache.max_entries (length cache.entries)
      then without_oldest (oldest cache.entries) cache.entries
      else cache.entries

  unfoldable pub set_with_ttl :
      (now : ℕ) → Bytes → T → ℕ → IntelligenceCache T → IntelligenceCache T
  unfolding evict insert
  set_with_ttl now key value ttl cache = record cache {
    entries = insert key (record { value = value; inserted_at = now; ttl = ttl }) (evict cache);
  }

  unfoldable pub set : (now : ℕ) → Bytes → T → IntelligenceCache T → IntelligenceCache T
  unfolding set_with_ttl
  set now key value cache = set_with_ttl now key value cache.default_ttl cache

  unfoldable pub remove : Bytes → IntelligenceCache T → IntelligenceCache T
  unfolding without
  remove key cache = record cache { entries = without key cache.entries }

  unfoldable pub clear : IntelligenceCache T → IntelligenceCache T
  clear cache = record cache { entries = [] }

  unfoldable pub cleanup_expired : (now : ℕ) → IntelligenceCache T → IntelligenceCache T
  unfolding is_expired
  cleanup_expired now cache = record cache {
    entries = keep (λ p. not (is_expired now p.1)) cache.entries;
  }

  unfoldable pub len : IntelligenceCache T → ℕ
  len cache = length cache.entries

  unfoldable pub is_empty : IntelligenceCache T → Bool
  unfolding len
  is_empty cache = len cache == 0
