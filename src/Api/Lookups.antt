-- ===== src/Api/Lookups.antt =====
-- The handlers of src/api/handlers.rs that only look up: trends, clusters, deployers, whales and
-- exports. The conversion of an answer to JSON, which does not fail on these types, is left out.
use chain_lens.Base.{
  ℕ, zero, suc, ◌≤◌, ◌≡◌, refl, Option, none, some, List, Bool, if◌then◌else◌, bytes_eq, length,
  text, unwrap_or, arith, ℤ, pos, negsuc, Outcome, ok, ◌>>=◌, map_err, map_err-eq-ok,
}
use chain_lens.Domain.{Bytes, Address}
use chain_lens.Intelligence.Actions.{Formats}
use chain_lens.Intelligence.Clusters.{
  AddressCluster, ClusterQueries, weight, steps_of, find_clusters, detect_contract_deployers,
  detect_token_whales,
}
use chain_lens.Intelligence.Clusters.Bounds.{Limited, find_clusters_ends}
use chain_lens.Intelligence.Export.{
  ExportRow, JoinedRow, Csv, export_address_transactions_csv, export_address_transactions_json,
}
use chain_lens.Sql.{SqlError}
use chain_lens.Api.{ApiError, internal_server_error, min_z}

-- `query.days.unwrap_or(30).min(365)`
unfoldable pub trend_days : Option ℤ → ℤ
trend_days days = min_z (unwrap_or days (pos 30)) 365

-- `query.depth.unwrap_or(2).min(5)`
unfoldable pub cluster_depth : Option ℤ → ℤ
cluster_depth depth = min_z (unwrap_or depth (pos 2)) 5

-- `query.limit.unwrap_or(1000).min(10000)`
unfoldable pub export_limit : Option ℤ → ℤ
export_limit limit = min_z (unwrap_or limit (pos 1000)) 10000

abbrev pub failed : {E A : Type 0} → Outcome E A → Outcome ApiError A
failed result = map_err (λ _. internal_server_error) result

-- The handlers of the four trends differ in the function that they call.
unfoldable pub get_trends :
    {E A : Type 0} → ((days : ℤ) → Outcome E A) → (days : Option ℤ) → Outcome ApiError A
unfolding trend_days
get_trends trends days = failed (trends (trend_days days))

unfoldable pub get_address_cluster :
    Formats
    → ClusterQueries
    → (address : Bytes) → (depth : Option ℤ) → Option (Outcome ApiError AddressCluster)
unfolding find_clusters cluster_depth
get_address_cluster fmt q address depth = elim (find_clusters fmt q address (cluster_depth depth)) [
  | none ↦ none
  | some found ↦ some (failed found)
]

unfoldable pub get_contract_deployers :
    Formats
    → ((limit : ℕ) → Outcome SqlError (List (Address × ℕ)))
    → Outcome ApiError (List (Bytes × ℕ))
unfolding detect_contract_deployers
get_contract_deployers fmt query = failed (detect_contract_deployers fmt (query 50))

unfoldable pub get_token_whales :
    Formats
    → (Bytes → (limit : ℕ) → Outcome SqlError (List (Address × Bytes)))
    → (token_address : Bytes) → Outcome ApiError (List (Bytes × Bytes))
unfolding detect_token_whales
get_token_whales fmt query token_address =
    failed (detect_token_whales fmt (λ token. query token 50) token_address)

-- The body of the answer of `export_address`, and whether it is CSV.
unfoldable pub export_address :
    Formats
    → (Bytes → ℤ → Outcome SqlError (List JoinedRow))
    → Csv ExportRow
    → (json : List ExportRow → Bytes) → (address : Bytes) → (limit : Option ℤ)
    → (format : Option Bytes) → Outcome ApiError (Bool × Bytes)
unfolding export_limit export_address_transactions_csv export_address_transactions_json
export_address fmt query csv json address limit format =
    if bytes_eq (unwrap_or format (text "json")) (text "csv")
    then failed (
        export_address_transactions_csv fmt query csv address (export_limit limit) >>= λ body.
        ok (Bool.true, body))
    else failed (
        export_address_transactions_json fmt query address (export_limit limit) >>= λ rows.
        ok (Bool.false, json rows))

weight_mono : (a b : ℕ) → a ≤ b → weight a ≤ weight b
unfolding weight
weight_mono zero zero h = omega arith
weight_mono zero (suc b) h = omega arith
weight_mono (suc a) zero h = absurd (omega (arith, h))
weight_mono (suc a) (suc b) h = omega (arith, weight_mono a b (omega (arith, h)))

depth_at_most_5 : (depth : Option ℤ) → steps_of (cluster_depth depth) ≤ 5
unfolding cluster_depth
depth_at_most_5 none = omega arith
depth_at_most_5 (some (pos n)) = omega arith
depth_at_most_5 (some (negsuc n)) = omega arith

-- When both queries of a round name at most ten addresses, the request for a cluster is answered,
-- whatever depth it asks for, with an error or with at most 3,368,421 addresses.
pub get_address_cluster_bounded :
    (fmt : Formats) (q : ClusterQueries)
    → Limited q
    → (address : Bytes) (depth : Option ℤ)
    → (r : Outcome ApiError AddressCluster) × (get_address_cluster fmt q address depth ≡ some r)
      × ((c : AddressCluster) → r ≡ ok c → length c.addresses ≤ 3368421)
unfolding get_address_cluster weight
get_address_cluster_bounded fmt q limited address depth =
    let (found, ends, small) = find_clusters_ends fmt q limited address (cluster_depth depth) in
    let most = weight_mono (steps_of (cluster_depth depth)) 5 (depth_at_most_5 depth) in
    rw (get_address_cluster, ends)
      (
        failed found,
        refl,
        λ c e. omega (arith, most, small c (map_err-eq-ok (λ _. internal_server_error) found e)),
      )
