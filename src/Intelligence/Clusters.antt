-- ===== src/Intelligence/Clusters.antt =====
-- The addresses around one, and who deploys contracts or holds a token: src/intelligence/
-- clustering.rs. What the queries return, errors included, is a parameter. The loop over the queue
-- takes fuel; `weight` is enough.
pub mod Bounds
pub mod Distinct
use chain_lens.Base.{
  ℕ, zero, suc, ◌+◌, ◌*◌, Option, none, some, List, [], ◌∷◌, ◌++◌, Bool, true, false, not,
  if◌then◌else◌, leb, ltb, any, bytes_eq, length, map, text, trim_0x, ℤ, pos, negsuc, Outcome, ok,
  err, panic, ok_or, ◌>>=◌,
}
use chain_lens.Domain.{Bytes, Address}
use chain_lens.Intelligence.Actions.{Formats, show_address}
use chain_lens.Sql.{SqlError, protocol}

pub record AddressCluster : Type 0 where
  pub cluster_id : ℕ
  pub addresses : List Bytes
  pub total_interactions : ℕ
  pub first_seen : Option Bytes
  pub last_seen : Option Bytes
  pub cluster_type : Bytes

-- A row names an address and how often it was called, or called.
pub record ClusterQueries : Type 0 where
  pub related : Address → Outcome SqlError (List (Address × ℕ))
  pub related_from : Address → Outcome SqlError (List (Address × ℕ))
  pub first_last : Address → Outcome SqlError (Option Bytes × Option Bytes)

-- The variables of the loop.
pub record Cluster : Type 0 where
  pub visited : List Address
  pub queue : List (Address × ℕ)
  pub addresses : List Bytes
  pub total_interactions : ℕ

-- `depth >= max_depth`
unfoldable pub deep_enough : ℕ → ℤ → Bool
deep_enough depth (pos max_depth) = leb max_depth depth
deep_enough depth (negsuc _) = true

unfoldable pub type_of_size : ℕ → Bytes
type_of_size n =
    if ltb 10 n
    then text "large_cluster"
    else if ltb 5 n
    then text "medium_cluster"
    else text "small_cluster"

-- Enough rounds for a depth that is left.
unfoldable pub weight : ℕ → ℕ
weight zero = 1
weight (suc r) = 1 + 20 * weight r

abbrev pub steps_of : ℤ → ℕ
steps_of (pos m) = m
steps_of (negsuc _) = 0

module _ (fmt : Formats) where
  -- The body of the loops over rows.
  unfoldable pub admit : (depth : ℕ) → Address × ℕ → Cluster → Cluster
  unfolding show_address
  admit depth (addr, cnt) c =
      if not (any (bytes_eq addr) c.visited)
      then record {
        visited = c.visited ++ addr ∷ [];
        queue = c.queue ++ (addr, depth + 1) ∷ [];
        addresses = c.addresses ++ show_address fmt addr ∷ [];
        total_interactions = c.total_interactions + cnt;
      }
      else c

  unfoldable pub admit_all : (depth : ℕ) → List (Address × ℕ) → Cluster → Cluster
  unfolding admit
  admit_all depth [] c = c
  admit_all depth (row ∷ rows) c = admit_all depth rows (admit depth row c)

  module _ (q : ClusterQueries) where
    -- The body of the `while`, from the address that was taken off the queue.
    unfoldable pub visit : Address → ℕ → Cluster → Outcome SqlError Cluster
    unfolding admit_all
    visit current depth c = do
      rows ← q.related current
      rows_from ← q.related_from current
      ok (admit_all depth rows_from (admit_all depth rows c))

    -- `none` when the fuel has run out.
    unfoldable pub grow : ℕ → ℤ → Cluster → Option (Outcome SqlError Cluster)
    unfolding visit deep_enough
    grow zero max_depth c = none
    grow (suc fuel) max_depth c = elim c.queue [
      | [] ↦ some (ok c)
      | (current, depth) ∷ queue ↦ elim (deep_enough depth max_depth) [
        | true ↦ some (ok (record c { queue = queue }))
        | false ↦ elim (visit current depth (record c { queue = queue })) [
          | ok c' ↦ grow fuel max_depth c'
          | err e ↦ some (err e)
          | panic ↦ some panic
        ]
      ]
    ]

    abbrev pub cluster_start : Bytes → Address → Cluster
    cluster_start address addr_bytes = record {
      visited = addr_bytes ∷ [];
      queue = (addr_bytes, 0) ∷ [];
      addresses = address ∷ [];
      total_interactions = 0;
    }

    -- What follows the loop.
    unfoldable pub summarize : Address → Cluster → Outcome SqlError AddressCluster
    unfolding type_of_size
    summarize addr_bytes c = do
      seen ← q.first_last addr_bytes
      ok (record {
        cluster_id = 0;
        addresses = c.addresses;
        total_interactions = c.total_interactions;
        first_seen = seen.0;
        last_seen = seen.1;
        cluster_type = type_of_size (length c.addresses);
      })

    unfoldable pub find_clusters :
        (address : Bytes) → (max_depth : ℤ) → Option (Outcome SqlError AddressCluster)
    unfolding grow weight summarize
    find_clusters address max_depth = elim (fmt.hex_decode (trim_0x address)) [
      | none ↦ some (err (protocol (text "invalid address")))
      | some addr_bytes ↦
          elim (grow (suc (weight (steps_of max_depth))) max_depth
            (cluster_start address addr_bytes)) [
              | none ↦ none
              | some grown ↦ some (grown >>= summarize addr_bytes)
            ]
    ]

-- `detect_contract_deployers` and `detect_token_whales` show what their queries return.
unfoldable pub detect_contract_deployers :
    Formats → Outcome SqlError (List (Address × ℕ)) → Outcome SqlError (List (Bytes × ℕ))
unfolding show_address
detect_contract_deployers fmt rows = do
  deployers ← rows
  ok (map (λ (row : Address × ℕ). (show_address fmt row.0, row.1)) deployers)

unfoldable pub detect_token_whales :
    Formats
    → (Bytes → Outcome SqlError (List (Address × Bytes)))
    → (token_address : Bytes) → Outcome SqlError (List (Bytes × Bytes))
unfolding show_address
detect_token_whales fmt query token_address = do
  token_bytes ← ok_or (fmt.hex_decode (trim_0x token_address)) (protocol (text "invalid address"))
  whales ← query token_bytes
  ok (map (λ (row : Address × Bytes). (show_address fmt row.0, row.1)) whales)
