-- ===== src/Targets/Kept.antt =====
-- What the operations of internal/cluster/cluster_state.go do to an application instance keeps its id, and
-- what they report of it is about it.
use kubernetes_monitor.Prelude.{
  ◌≡◌, refl, String, Bool, Option, none, some, [], ◌∷◌, Result, ok, failed, arith, string_eq,
  Option-cases, inl, inr,
}
use kubernetes_monitor.Prelude.Maps.{Map, lookup, insert}
use kubernetes_monitor.Resources.{
  new_unknown_monitored_resource, key_eq, Kubernetes, ResourceKey, TypeMeta, DesiredResource,
  ApplicationInstanceChanges,
}
use kubernetes_monitor.Instance.{
  ApplicationInstance, resolve_namespaces, replace_monitored_resources, new_application_instance,
}
use kubernetes_monitor.Instance.State as Instance
use kubernetes_monitor.Snapshot.{
  SharedCluster, MonitoredResources, get_monitored_resources, namespace_map_with_health,
}
use kubernetes_monitor.ClusterState.{
  ClusterState, Target, get_or_create_application_instance, replace_from_cluster, replaced_from,
}

-- Every instance is filed under its own id.
abbrev pub IsFiled : {M : Type 0} → ClusterState M → Type 0
IsFiled {M} s =
    (id : String) (a : ApplicationInstance M)
    → lookup id s.application_instances ≡ some a
    → a.application_instance_id ≡ id

module _ {M C : Type 0} where
  pub created_id :
      (id hash_salt : String) (t : Target M C)
      → IsFiled t.state
      → (get_or_create_application_instance id hash_salt t).application_instance_id ≡ id
  unfolding get_or_create_application_instance new_application_instance
  created_id id hash_salt t f = elim (Option-cases (lookup id t.state.application_instances)) [
    | inl p ↦ ground arith
    | inr (a, p) ↦ ground (arith, f id a p)
  ]

module _ (k : Kubernetes) (default_api_resources : Map TypeMeta Bool) where
  open k use {Manifest}

  -- An instance's id is kept by all that a command does to the instance.
  abbrev pub Keeps : String → Option (ApplicationInstance Manifest × Option String) → Type 0
  Keeps id none = Unit {0}
  Keeps id (some (a, err)) = a.application_instance_id ≡ id

  replaced_from-Keeps :
      (a : ApplicationInstance Manifest) (o : Option (Result String (MonitoredResources Manifest)))
      → Keeps a.application_instance_id (replaced_from k default_api_resources a o)
  unfolding replaced_from replace_monitored_resources
  replaced_from-Keeps a none = tt
  replaced_from-Keeps a (some (failed e)) = refl
  replaced_from-Keeps a (some (ok r)) = refl

  pub replace_from_cluster-Keeps :
      (c : SharedCluster Manifest) (cluster_id : String) (a : ApplicationInstance Manifest)
      → Keeps a.application_instance_id
          (replace_from_cluster k default_api_resources c cluster_id a)
  unfolding replace_from_cluster resolve_namespaces
  replace_from_cluster-Keeps c cluster_id a =
      let (namespaced_map, healthy) = namespace_map_with_health c default_api_resources in
      let resolved = (resolve_namespaces k namespaced_map a).0 in
      replaced_from-Keeps resolved (
        get_monitored_resources k cluster_id c resolved.desired_resources resolved.hash_salt
          healthy)

-- Changes about the instance of the target.
abbrev pub IsAbout : {M : Type 0} → String → String → ApplicationInstanceChanges M → Type 0
IsAbout cluster_id id c = (c.application_instance_id ≡ id) × (c.cluster_id ≡ cluster_id)

module _ (k : Kubernetes) where
  open k use {Manifest}

  pub merged_id :
      (cluster_id : String) (incoming : Map ResourceKey (DesiredResource Manifest))
      (a : ApplicationInstance Manifest)
      → (Instance.merge_desired_resources k cluster_id incoming a).application_instance_id
        ≡ a.application_instance_id
  unfolding Instance.merge_desired_resources
  merged_id cluster_id [] a = refl
  merged_id cluster_id ((key, d) ∷ incoming) a = merged_id cluster_id incoming (record a {
    unknown_monitored_resources =
        insert d.id (new_unknown_monitored_resource k cluster_id d "")
          a.unknown_monitored_resources;
    desired_resources = insert key d a.desired_resources;
  })
