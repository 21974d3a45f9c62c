-- ===== src/Tests/Clustering.antt =====
-- Clusters around an address, at concrete queries.
use chain_lens.Base.{
  ◌≤◌, ◌≡◌, refl, ap, sym, ok-injective, none, some, List, [], ◌∷◌, map, length, trim_0x, text,
  bytes_eq, pos, Outcome, ok, inl, inr, Nodup, arith,
}
use chain_lens.Domain.{Address}
use chain_lens.Intelligence.Actions.{show_address}
use chain_lens.Intelligence.Clusters.{AddressCluster, ClusterQueries, find_clusters}
use chain_lens.Intelligence.Clusters.Bounds.{Limited}
use chain_lens.Intelligence.Clusters.Distinct.{find_clusters_distinct}
use chain_lens.Api.{ApiError}
use chain_lens.Api.Lookups.{get_address_cluster, get_address_cluster_bounded}
use chain_lens.Tests.Persisting.{coding}

-- Every address calls 2 and 3, and nobody calls.
abbrev calls : ClusterQueries
calls = record {
  related = λ a. ok ((2 ∷ [], 5) ∷ (3 ∷ [], 4) ∷ []);
  related_from = λ a. ok [];
  first_last = λ a. ok (none, none);
}

calls-Limited : Limited calls
calls-Limited addr rows (inl e) = omega (arith, ap length (sym (ok-injective e)))
calls-Limited addr rows (inr e) = omega (arith, ap length (sym (ok-injective e)))

abbrev found : AddressCluster
found = record {
  cluster_id = 0;
  addresses = (1 ∷ 9 ∷ []) ∷ show_address coding (2 ∷ []) ∷ show_address coding (3 ∷ []) ∷ [];
  total_interactions = 9;
  first_seen = none;
  last_seen = none;
  cluster_type = text "small_cluster";
}

decoded : coding.hex_decode (trim_0x (1 ∷ 9 ∷ [])) ≡ some (9 ∷ [])
unfolding trim_0x
decoded = refl

-- The addresses are visited in the order in which they were found, each of them once.
finds : find_clusters coding calls (1 ∷ 9 ∷ []) (pos 2) ≡ some (ok found)
unfolding find_clusters trim_0x bytes_eq
finds = refl

find_clusters_distinct_example :
    (rest : List Address) × (found.addresses ≡ (1 ∷ 9 ∷ []) ∷ map (show_address coding) rest)
    × Nodup ((9 ∷ []) ∷ rest)
find_clusters_distinct_example =
    find_clusters_distinct coding calls (1 ∷ 9 ∷ []) (9 ∷ []) decoded (pos 2) found finds

get_address_cluster_bounded_example :
    (r : Outcome ApiError AddressCluster) × (get_address_cluster coding calls
        (1 ∷ 9 ∷ [])
        (some (pos 40))
      ≡ some r)
    × ((c : AddressCluster) → r ≡ ok c → length c.addresses ≤ 3368421)
get_address_cluster_bounded_example =
    get_address_cluster_bounded coding calls calls-Limited (1 ∷ 9 ∷ []) (some (pos 40))
