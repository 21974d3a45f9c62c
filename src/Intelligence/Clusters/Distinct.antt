-- ===== src/Intelligence/Clusters/Distinct.antt =====
-- Which addresses `find_clusters` of src/intelligence/clustering.rs names.
use mathlib.Core.Path.{subst}
use mathlib.Core.List.{map-append}
use mathlib.Core.Option.{some-injective}
use chain_lens.Base.{
  ap, sym, ok-injective, ℕ, zero, suc, ◌≡◌, refl, ◌∙◌, some, List, [], ◌∷◌, ◌++◌, map, not, any,
  any_iff, bytes_eq, Bool-cases, Option-cases, Outcome-cases, inl, inr, arith, trim_0x, ℤ, ok, In,
  Nodup, Nodup-append, >>=-eq-ok,
}
use chain_lens.Domain.{Bytes, Address}
use chain_lens.Intelligence.Actions.{Formats, show_address}
use chain_lens.Intelligence.Clusters.{
  AddressCluster, ClusterQueries, Cluster, deep_enough, weight, steps_of, admit, admit_all, visit,
  grow, cluster_start, summarize, find_clusters,
}

-- The first address as it was given, and then as many others, all different.
abbrev pub Tracks : Formats → Bytes → Address → List Address → List Bytes → Type 0
Tracks fmt address addr visited addresses =
    (rest : List Address) × (visited ≡ addr ∷ rest)
    × (addresses ≡ address ∷ map (show_address fmt) rest)
    × Nodup visited

module _ (fmt : Formats) (address : Bytes) (addr : Address) where
  abbrev Holds : Cluster → Type 0
  Holds c = Tracks fmt address addr c.visited c.addresses

  admit-Holds :
      (depth : ℕ) (row : Address × ℕ) (c : Cluster) → Holds c → Holds (admit fmt depth row c)
  unfolding admit
  admit-Holds depth (other, cnt) c (rest, seen, named, distinct) =
      elim (Bool-cases (not (any (bytes_eq other) c.visited))) [
        | inr known ↦ rw known (rest, seen, named, distinct)
        | inl new ↦ rw new (
          rest ++ other ∷ [],
          rw seen refl,
          rw (named, map-append) refl,
          Nodup-append c.visited (other ∷ []) distinct ((λ m. m), tt)
              (λ x m l. elim l [
                | inl same ↦ absurd (
                    ground (
                      arith,
                      new,
                      (any_iff other c.visited).1 (subst (λ (y : Address). In y c.visited) same m),
                    ))
                | inr nowhere ↦ nowhere
              ]),
        )
      ]

  admit_all-Holds :
      (depth : ℕ) (rows : List (Address × ℕ)) (c : Cluster)
      → Holds c
      → Holds (admit_all fmt depth rows c)
  unfolding admit_all
  admit_all-Holds depth [] c h = h
  admit_all-Holds depth (row ∷ rows) c h =
      admit_all-Holds depth rows (admit fmt depth row c) (admit-Holds depth row c h)

  module _ (q : ClusterQueries) where
    visit-Holds :
        (current : Address) (depth : ℕ) (c : Cluster) {c' : Cluster}
        → Holds c
        → visit fmt q current depth c ≡ ok c'
        → Holds c'
    unfolding visit
    visit-Holds current depth c h went =
        let (rows, _, went1) = >>=-eq-ok (q.related current) _ went in
        let (rows_from, _, went2) = >>=-eq-ok (q.related_from current) _ went1 in
        subst Holds (ok-injective went2)
          (admit_all-Holds depth rows_from _ (admit_all-Holds depth rows c h))

    grow-Holds :
        (max_depth : ℤ) (fuel : ℕ) (visited : List Address) (queue : List (Address × ℕ))
        (addresses : List Bytes) (total : ℕ)
        → Tracks fmt address addr visited addresses
        → (c' : Cluster)
        → grow fmt q fuel max_depth (record {
          visited = visited;
          queue = queue;
          addresses = addresses;
          total_interactions = total;
        })
          ≡ some (ok c')
        → Holds c'
    unfolding grow
    grow-Holds max_depth zero visited queue addresses total h c' e = cc
    grow-Holds max_depth (suc fuel) visited [] addresses total h c' e =
        subst Holds (ok-injective (some-injective _ _ e)) h
    grow-Holds max_depth (suc fuel) visited ((current, depth) ∷ queue) addresses total h c' e =
        elim (Bool-cases (deep_enough depth max_depth)) [
          | inl far ↦ subst Holds (ok-injective (some-injective _ _ (rw (grow, far) at e))) h
          | inr near ↦
              let c : Cluster = record {
                visited = visited;
                queue = queue;
                addresses = addresses;
                total_interactions = total;
              } in
              elim (Outcome-cases (visit fmt q current depth c)) [
                | inr (inl stop) ↦ let stuck = rw (grow, near, stop) at e in cc
                | inr (inr (_, stop)) ↦ let stuck = rw (grow, near, stop) at e in cc
                | inl (d, went) ↦
                    grow-Holds max_depth fuel d.visited d.queue d.addresses d.total_interactions
                      (visit-Holds current depth c h went) c' (rw (grow, near, went) at e)
              ]
        ]

-- A cluster names the address as it was given, and then other addresses, which all differ from each
-- other and from the first one.
pub find_clusters_distinct :
    (fmt : Formats) (q : ClusterQueries) (address : Bytes) (addr : Address)
    → fmt.hex_decode (trim_0x address) ≡ some addr
    → (max_depth : ℤ) (cluster : AddressCluster)
    → find_clusters fmt q address max_depth ≡ some (ok cluster)
    → (rest : List Address) × (cluster.addresses ≡ address ∷ map (show_address fmt) rest)
      × Nodup (addr ∷ rest)
unfolding find_clusters summarize
find_clusters_distinct fmt q address addr decoded max_depth cluster h =
    let fuel = suc (weight (steps_of max_depth)) in
    let first = cluster_start fmt q address addr in
    elim (Option-cases (grow fmt q fuel max_depth first)) [
      | inl out ↦ let stuck = rw (find_clusters, decoded, out) at h in cc
      | inr (grown, ends) ↦
          let h1 = some-injective _ _ (rw (find_clusters, decoded, ends) at h) in
          let (c, is, h2) = >>=-eq-ok grown (summarize fmt q addr) h1 in
          let (seen, _, h3) = >>=-eq-ok (q.first_last addr) _ h2 in
          let (rest, visited, named, distinct) =
            grow-Holds fmt address addr q max_depth fuel (addr ∷ []) ((addr, 0) ∷ []) (address ∷ [])
              0 ([], refl, refl, ((λ m. m), tt)) c (ends ∙ ap some is) in
          (
            rest,
            sym (ap (λ (k : AddressCluster). k.addresses) (ok-injective h3)) ∙ named,
            subst Nodup visited distinct,
          )
    ]
