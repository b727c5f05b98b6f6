-- ===== src/ClusterState.antt =====
-- internal/cluster/cluster_state.go: the application instances of one target, and every operation that
-- changes them. The operations run one at a time. `Target` is the state beside the interest index that
-- it publishes to; `stopped` is whether that index has stopped, when publishing fails and is logged.
-- A struct that Go changes through its pointer is put back into the map.
pub mod Sweep
pub mod Published
use kubernetes_monitor.Prelude.{
  ℕ, suc, String, Bool, true, false, not, Option, none, some, List, [], ◌∷◌, ◌++◌, Result, ok,
  failed, map, ◌>>=◌, if◌then◌else◌, string_eq, filter,
}
use kubernetes_monitor.Prelude.Sets
use kubernetes_monitor.Prelude.Sets.{contains}
use kubernetes_monitor.Prelude.Maps.{Map, values, lookup, insert}
use kubernetes_monitor.Resources.{
  Kubernetes, ResourceKey, TypeMeta, key_eq, DesiredResource, CacheResource,
  ApplicationInstanceChanges, resource_key, resolve_namespace,
}
use kubernetes_monitor.Instance.{
  ApplicationInstance, new_application_instance, resource_keys_of_interest,
  replace_monitored_resources, monitored_resource_changes, resolve_namespaces,
  delete_desired_resources, Outcome, delete_desired_resources_except_for_version,
  get_changes_for_updated_resource,
}
use kubernetes_monitor.Instance.State as Instance
use kubernetes_monitor.Interests.{InterestIndex}
use kubernetes_monitor.Interests
use kubernetes_monitor.Snapshot.{
  SharedCluster, MonitoredResources, namespace_map_with_health, get_monitored_resources,
  manifest_of,
}

pub record ClusterState (M : Type 0) : Type 0 where
  pub cluster_id : String
  pub application_instances : Map String (ApplicationInstance M)

pub record Target (M C : Type 0) : Type 0 where
  pub state : ClusterState M
  pub interests : InterestIndex C

-- `for key := range … { keys[key] = struct{}{} }`
unfoldable pub add_each : List ResourceKey → List ResourceKey → List ResourceKey
add_each [] keys = keys
add_each (key ∷ more) keys = add_each more (Sets.add key keys)

module _ {M C : Type 0} where
  unfoldable pub upsert_application_instance : ApplicationInstance M → Target M C → Target M C
  upsert_application_instance a t = record t {
    state = record (t.state) {
      application_instances = insert a.application_instance_id a t.state.application_instances;
    };
  }

  unfoldable pub get_or_create_application_instance :
      String → String → Target M C → ApplicationInstance M
  unfolding new_application_instance
  get_or_create_application_instance id hash_salt t =
      elim (lookup id t.state.application_instances) [
        | none ↦ new_application_instance id hash_salt
        | some a ↦ a
      ]

-- The selection that `mergeDesiredResources` reports: what belongs to the incoming resources.
unfoldable pub incoming_changes :
    {M : Type 0} → String → List String → ApplicationInstance M → ApplicationInstanceChanges M
incoming_changes cluster_id ids a =
    let present =
      filter (λ r. contains ids r.desired_resource_id) (values a.present_monitored_resources) in
    let uids = map (λ r. r.resource_id) present in
    record {
      application_instance_id = a.application_instance_id;
      cluster_id = cluster_id;
      present_monitored_resources = present;
      child_monitored_resources =
          filter (λ r. contains uids r.root_owner_id) (values a.child_monitored_resources);
      missing_monitored_resources =
          filter (λ r. contains ids r.desired_resource_id) (values a.missing_monitored_resources);
      unknown_monitored_resources =
          filter (λ r. contains ids r.desired_resource_id) (values a.unknown_monitored_resources);
      deleted_child_resource_keys = [];
    }

module _ (k : Kubernetes) (default_api_resources : Map TypeMeta Bool) where
  open k use {Manifest}

  -- What the snapshot makes of the instance.
  unfoldable pub replaced_from :
      ApplicationInstance Manifest
      → Option (Result String (MonitoredResources Manifest))
      → Option (ApplicationInstance Manifest × Option String)
  unfolding replace_monitored_resources
  replaced_from a none = none
  replaced_from a (some (failed e)) = some (a, some e)
  replaced_from a (some (ok r)) =
      some (replace_monitored_resources r.present r.child r.missing r.unknown a, none)

  -- `ReplaceMonitoredResourcesFromCluster`: the instance, and the error. `none` never returns.
  unfoldable pub replace_from_cluster :
      SharedCluster Manifest
      → String
      → ApplicationInstance Manifest
      → Option (ApplicationInstance Manifest × Option String)
  unfolding resolve_namespaces get_monitored_resources replaced_from namespace_map_with_health
  replace_from_cluster c cluster_id a =
      let (namespaced_map, discovery_healthy) = namespace_map_with_health c default_api_resources in
      let resolved = (resolve_namespaces k namespaced_map a).0 in
      replaced_from resolved (
        get_monitored_resources k cluster_id c resolved.desired_resources resolved.hash_salt
          discovery_healthy)

  -- The loop of `resolveNamespaces` over the incoming resources. `clusters n` is what the cluster
  -- answers after the n-th invalidation of the discovery.
  unfoldable pub resolve_incoming :
      (ℕ → SharedCluster Manifest)
      → ℕ
      → Map TypeMeta Bool
      → List (DesiredResource Manifest)
      → Map ResourceKey (DesiredResource Manifest)
      → Map ResourceKey (DesiredResource Manifest) × ℕ
  resolve_incoming clusters n namespaced_map [] resolved = (resolved, n)
  resolve_incoming clusters n namespaced_map (d ∷ ds) resolved =
      let first = (resolve_namespace k namespaced_map d).0 in
      let refreshed = (namespace_map_with_health (clusters (suc n)) default_api_resources).0 in
      let second = (resolve_namespace k refreshed first).0 in
      let after_refresh =
        resolve_incoming clusters (suc n) refreshed ds
          (insert (resource_key k second) second resolved) in
      let after_first =
        resolve_incoming clusters n namespaced_map ds
          (insert (resource_key k first) first resolved) in
      if not first.is_namespace_resolved then after_refresh else after_first

  -- `resolveNamespaces`
  unfoldable pub resolved_incoming :
      (ℕ → SharedCluster Manifest)
      → Map ResourceKey (DesiredResource Manifest)
      → Map ResourceKey (DesiredResource Manifest) × ℕ
  unfolding resolve_incoming
  resolved_incoming clusters desired =
      resolve_incoming clusters 0 (namespace_map_with_health (clusters 0) default_api_resources).0
        (values desired) []

module _ (k : Kubernetes) where
  open k use {Manifest}

  unfoldable pub instances_keys :
      List (ApplicationInstance Manifest) → List ResourceKey → List ResourceKey
  unfolding resource_keys_of_interest add_each
  instances_keys [] keys = keys
  instances_keys (a ∷ instances) keys =
      instances_keys instances (add_each (resource_keys_of_interest k a) keys)

  unfoldable pub keys_of_interest : ClusterState Manifest → List ResourceKey
  unfolding instances_keys
  keys_of_interest s = instances_keys (values s.application_instances) []

module _ (k : Kubernetes) (default_api_resources : Map TypeMeta Bool) {C : Type 0}
    (stopped : Bool) where
  open k use {Manifest}

  unfoldable pub publish_interests : Target Manifest C → Target Manifest C
  unfolding keys_of_interest
  publish_interests t = if stopped then t else record t {
    interests = Interests.set t.state.cluster_id (keys_of_interest k t.state) t.interests;
  }

  -- The target, the instance and the error that `rescan` leaves.
  unfoldable pub rescanned :
      Target Manifest C
      → Option (ApplicationInstance Manifest × Option String)
      → Option (Target Manifest C × (ApplicationInstance Manifest × Option String))
  unfolding publish_interests upsert_application_instance
  rescanned t none = none
  rescanned t (some (a, some e)) = some (upsert_application_instance a t, (a, some e))
  rescanned t (some (a, none)) =
      some (publish_interests (upsert_application_instance a t), (a, none))

  unfoldable pub rescan :
      SharedCluster Manifest
      → ApplicationInstance Manifest
      → Target Manifest C
      → Option (Target Manifest C × (ApplicationInstance Manifest × Option String))
  unfolding rescanned replace_from_cluster
  rescan c a t =
      let published = publish_interests (upsert_application_instance a t) in
      elim c.ensure_synced [
        | some e ↦ some (published, (a, some e))
        | none ↦
            rescanned published
              (replace_from_cluster k default_api_resources c t.state.cluster_id a)
      ]

  -- What a command returns after the rescan.
  unfoldable pub reply :
      (ApplicationInstance Manifest → ApplicationInstanceChanges Manifest)
      → Option (Target Manifest C × (ApplicationInstance Manifest × Option String))
      → Option (Target Manifest C × Result String (ApplicationInstanceChanges Manifest))
  reply changes none = none
  reply changes (some (t, (a, some e))) = some (t, failed e)
  reply changes (some (t, (a, none))) = some (t, ok (changes a))

  -- The two commands, once the namespaces are resolved.
  unfoldable pub merge_resolved :
      (ℕ → SharedCluster Manifest)
      → String
      → String
      → Target Manifest C
      → Map ResourceKey (DesiredResource Manifest) × ℕ
      → Option (Target Manifest C × Result String (ApplicationInstanceChanges Manifest))
  unfolding get_or_create_application_instance rescan reply incoming_changes
  merge_resolved clusters id hash_salt t (incoming, n) =
      reply (incoming_changes t.state.cluster_id (map (λ d. d.id) (values incoming))) (
        rescan (clusters n)
          (Instance.merge_desired_resources k t.state.cluster_id incoming
            (get_or_create_application_instance id hash_salt t))
          t)

  unfoldable pub replace_resolved :
      (ℕ → SharedCluster Manifest)
      → String
      → String
      → Target Manifest C
      → Map ResourceKey (DesiredResource Manifest) × ℕ
      → Option (Target Manifest C × Result String (ApplicationInstanceChanges Manifest))
  unfolding get_or_create_application_instance rescan reply
  replace_resolved clusters id hash_salt t (incoming, n) =
      reply (monitored_resource_changes t.state.cluster_id) (
        rescan (clusters n)
          (Instance.replace_desired_resources k t.state.cluster_id incoming
            (get_or_create_application_instance id hash_salt t))
          t)

  unfoldable pub merge_desired :
      (ℕ → SharedCluster Manifest)
      → String
      → Map ResourceKey (DesiredResource Manifest)
      → String
      → Target Manifest C
      → Option (Target Manifest C × Result String (ApplicationInstanceChanges Manifest))
  unfolding merge_resolved resolved_incoming
  merge_desired clusters id desired hash_salt t =
      merge_resolved clusters id hash_salt t
        (resolved_incoming k default_api_resources clusters desired)

  unfoldable pub replace_desired :
      (ℕ → SharedCluster Manifest)
      → String
      → Map ResourceKey (DesiredResource Manifest)
      → String
      → Target Manifest C
      → Option (Target Manifest C × Result String (ApplicationInstanceChanges Manifest))
  unfolding replace_resolved resolved_incoming
  replace_desired clusters id desired hash_salt t =
      replace_resolved clusters id hash_salt t
        (resolved_incoming k default_api_resources clusters desired)
