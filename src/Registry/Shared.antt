-- ===== src/Registry/Shared.antt =====
-- All targets of internal/cluster/cluster_list.go share one connection.
use kubernetes_monitor.Prelude.{
  ◌≡◌, refl, sym, ap, ◌∙◌, String, Option, none, some, List, [], ◌∷◌, string_eq, arith,
  Option-cases, Result-cases, inl, inr,
}
use kubernetes_monitor.Prelude.Maps.{lookup, lookup-insert}
use kubernetes_monitor.Registry.{
  Cluster, ClusterRegistry, Attempt, new_cluster, add_cluster, connected, ensure, ensure_all,
}

module _ {S : Type 0} where
  -- Each target stands under its own id and uses the registry's connection.
  abbrev pub IsShared : ClusterRegistry S → Type 0
  IsShared r =
      (id : String) (cluster : Cluster S)
      → lookup id r.clusters ≡ some cluster
      → (cluster.cluster_id ≡ id) × (r.shared ≡ some cluster.shared)

  -- Nothing is connected before the first target, and nothing replaces a connection.
  abbrev pub Keeps : ClusterRegistry S → ClusterRegistry S → Type 0
  Keeps r r' =
      ((shared : S) → r.shared ≡ some shared → r'.shared ≡ some shared)
      × ((id : String) (cluster : Cluster S)
          → lookup id r.clusters ≡ some cluster
          → lookup id r'.clusters ≡ some cluster)

  add_cluster-IsShared :
      (a : Attempt S) (shared : S) (e : Option String) (r : ClusterRegistry S)
      → IsShared r
      → ((s : S) → r.shared ≡ some s → s ≡ shared)
      → IsShared (add_cluster a.id shared (new_cluster e a.id shared) r).0
  unfolding add_cluster new_cluster
  add_cluster-IsShared a shared (some e) r h same id cluster p =
      ((h id cluster p).0, ap some (sym (same cluster.shared (h id cluster p).1)))
  add_cluster-IsShared a shared none r h same id cluster p =
      let q =
        sym (lookup-insert a.id id (record { cluster_id = a.id; shared = shared }) r.clusters)
        ∙ p in
      (
        ground (arith, q, h id cluster, string_eq.beq_iff a.id id),
        ground (arith, q, h id cluster, same cluster.shared, string_eq.beq_iff a.id id),
      )

  add_cluster-Keeps :
      (a : Attempt S) (shared : S) (e : Option String) (r : ClusterRegistry S)
      → lookup a.id r.clusters ≡ none
      → ((s : S) → r.shared ≡ some s → s ≡ shared)
      → Keeps r (add_cluster a.id shared (new_cluster e a.id shared) r).0
  unfolding add_cluster new_cluster
  add_cluster-Keeps a shared (some e) r absent same =
      (λ s p. ap some (sym (same s p)), λ id cluster p. p)
  add_cluster-Keeps a shared none r absent same = (
    λ s p. ap some (sym (same s p)),
    λ id cluster p. ground (
      arith,
      lookup-insert a.id id (record { cluster_id = a.id; shared = shared }) r.clusters,
      string_eq.beq_iff a.id id,
    ),
  )

  -- Both, of a call.
  abbrev Goes : ClusterRegistry S → ClusterRegistry S → Type 0
  Goes r r' = IsShared r' × Keeps r r'

  connected-Goes :
      (a : Attempt S) (o : Option S) (r : ClusterRegistry S)
      → r.shared ≡ o
      → lookup a.id r.clusters ≡ none
      → IsShared r
      → Goes r (connected a o r).0
  unfolding connected
  connected-Goes a (some shared) r e absent h =
      let same : (s : S) → r.shared ≡ some s → s ≡ shared = λ s p. cc in
      (
        add_cluster-IsShared a shared a.subscribe_error r h same,
        add_cluster-Keeps a shared a.subscribe_error r absent same,
      )
  connected-Goes a none r e absent h = elim (Result-cases a.connect) [
    | inl (err, p) ↦ rw (p, connected) (h, (λ s q. q, λ id cluster q. q))
    | inr (shared, p) ↦
        let same : (s : S) → r.shared ≡ some s → s ≡ shared =
          λ s q. absurd (ground (arith, e, q)) in
        rw (p, connected)
          (
            add_cluster-IsShared a shared a.subscribe_error r h same,
            add_cluster-Keeps a shared a.subscribe_error r absent same,
          )
  ]

  ensure-Goes : (a : Attempt S) (r : ClusterRegistry S) → IsShared r → Goes r (ensure a r).0
  unfolding ensure
  ensure-Goes a r h = elim (Option-cases (lookup a.id r.clusters)) [
    | inl p ↦ rw (p, ensure) (connected-Goes a r.shared r refl p h)
    | inr (cluster, p) ↦ rw (p, ensure) (h, (λ s q. q, λ id c q. q))
  ]

  ensure_all-Goes :
      (attempts : List (Attempt S)) (r : ClusterRegistry S)
      → IsShared r
      → Goes r (ensure_all attempts r)
  unfolding ensure_all
  ensure_all-Goes [] r h = (h, (λ s q. q, λ id c q. q))
  ensure_all-Goes (a ∷ attempts) r h =
      let first = ensure-Goes a r h in
      let rest = ensure_all-Goes attempts (ensure a r).0 first.0 in
      (rest.0, (λ s q. rest.1.0 s (first.1.0 s q), λ id c q. rest.1.1 id c (first.1.1 id c q)))

  -- If every target uses the registry's connection, then after any calls of `ensure`, whatever they
  -- meet, every target does, under its own id; and a connection and a target that were there still are.
  pub ensure_all-IsShared :
      (attempts : List (Attempt S)) (r : ClusterRegistry S)
      → IsShared r
      → IsShared (ensure_all attempts r) × Keeps r (ensure_all attempts r)
  ensure_all-IsShared attempts r h = ensure_all-Goes attempts r h
