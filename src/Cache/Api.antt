-- ===== src/Cache/Api.antt =====
-- The cache of HTTP answers: src/api/cache.rs. An entry is a body with a status code; the code of
-- `get`, `set` and `clear` is that of the other cache.
use chain_lens.Base.{
  ℕ, ◌≡◌, ap, Option, none, [], ◌∷◌, Bool, true, false, not, ◌&&◌, ◌==◌, keep, if◌then◌else◌,
  bytes_eq, bytes_eq_iff, arith, inl, inr, Bool-cases,
}
use chain_lens.Domain.{Bytes}
use chain_lens.Cache as Cache
use chain_lens.Cache.{CacheEntry, IntelligenceCache, find, is_expired}
use chain_lens.Cache.Laws.{Entries}

abbrev pub ApiCache : Type 0
ApiCache = IntelligenceCache (Bytes × ℕ)

unfoldable pub get : (now : ℕ) → Bytes → ApiCache → Option (Bytes × ℕ)
get now key cache = Cache.get now key cache

unfoldable pub set : (now : ℕ) → Bytes → (body : Bytes) → (status : ℕ) → ApiCache → ApiCache
set now key body status cache = Cache.set now key (body, status) cache

unfoldable pub clear : ApiCache → ApiCache
clear cache = Cache.clear cache

-- `str::starts_with`
unfoldable pub starts_with : Bytes → Bytes → Bool
starts_with text [] = true
starts_with [] (p ∷ prefix) = false
starts_with (t ∷ text) (p ∷ prefix) = t == p && starts_with text prefix

unfoldable pub invalidate_prefix : Bytes → ApiCache → ApiCache
unfolding starts_with
invalidate_prefix prefix cache = record cache {
  entries = keep (λ p. not (starts_with p.0 prefix)) cache.entries;
}

find-invalidated :
    (prefix key : Bytes) (es : Entries (Bytes × ℕ))
    → find key (keep (λ p. not (starts_with p.0 prefix)) es)
      ≡ (if starts_with key prefix then none else find key es)
unfolding find
find-invalidated prefix key [] = ground arith
find-invalidated prefix key (e ∷ es) = elim (Bool-cases (bytes_eq key e.0)) [
  | inl same ↦
      let is : key ≡ e.0 = (bytes_eq_iff key e.0).0 same in
      let alike : starts_with key prefix ≡ starts_with e.0 prefix =
        ap (λ k. starts_with k prefix) is in
      ground (arith, same, alike, find-invalidated prefix key es)
  | inr other ↦ ground (arith, other, find-invalidated prefix key es)
]

-- After the invalidation of a prefix no key with the prefix is found, and every other lookup gives
-- what it gave before.
pub get-invalidate_prefix :
    (now : ℕ) (prefix key : Bytes) (cache : ApiCache)
    → get now key (invalidate_prefix prefix cache)
      ≡ (if starts_with key prefix then none else get now key cache)
unfolding get invalidate_prefix Cache.get
get-invalidate_prefix now prefix key cache =
    ground (arith, find-invalidated prefix key cache.entries)
