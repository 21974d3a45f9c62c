-- ===== src/Tests/Caching.antt =====
-- The caches and the quantities at concrete inputs.
use chain_lens.Base.{ℕ, ◌≡◌, refl, [], ◌∷◌, ok, arith}
use chain_lens.Cache.{IntelligenceCache, CacheEntry, set_with_ttl, find}
use chain_lens.Cache.Laws.{IsValid}
use chain_lens.Cache.Bounds.{set_with_ttl-IsValid}
use chain_lens.Rpc.Quantity.{parse, format_quantity}
use chain_lens.Rpc.Quantity.RoundTrip.{parse-format_quantity}

-- One entry, in a cache with room for one.
abbrev entry : CacheEntry ℕ
entry = record { value = 5; inserted_at = 10; ttl = 60 }

abbrev full : IntelligenceCache ℕ
full = record { entries = (1 ∷ [], entry) ∷ []; max_entries = 1; default_ttl = 60 }

full-IsValid : IsValid full
unfolding find
full-IsValid = record { distinct = (refl, tt); bounded = omega arith }

set_with_ttl-IsValid_example : IsValid (set_with_ttl 20 (2 ∷ []) 7 30 full)
set_with_ttl-IsValid_example = set_with_ttl-IsValid 20 (2 ∷ []) 7 30 full full-IsValid

parse-format_quantity_example : parse (format_quantity 19000000) ≡ ok 19000000
parse-format_quantity_example = parse-format_quantity 19000000 (omega arith)
