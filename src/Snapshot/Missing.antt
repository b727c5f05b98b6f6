-- ===== src/Snapshot/Missing.antt =====
-- The last loop of `getMonitoredResources`, and the whole function.
use kubernetes_monitor.Prelude.{
  String, Bool, true, false, Option, some, List, [], ◌∷◌, Result, ok, failed, ◌&&◌, if◌then◌else◌,
  joined, map, ◌>>=◌, string_eq,
}
use kubernetes_monitor.Prelude.Sets
use kubernetes_monitor.Prelude.Sets.{contains}
use kubernetes_monitor.Prelude.Maps.{Map, values, insert}
use kubernetes_monitor.Resources.{
  Kubernetes, ResourceKey, DesiredResource, PresentMonitoredResource, MissingMonitoredResource,
  UnknownMonitoredResource, new_missing_monitored_resource, new_unknown_monitored_resource,
}
use kubernetes_monitor.Resources.Libraries.{group_kind}
use kubernetes_monitor.Snapshot.Connection.{SharedCluster}
use kubernetes_monitor.Snapshot.Scan.{
  MonitoredResources, Found, DiscoveredResource, discovered, desired_gvk, gvk_is_known_to_cluster,
  mark_unknown, target_objects, resource_is_desired, record_all,
}

-- `accountedForMonitoredResources`
unfoldable pub account_present :
    {M : Type 0} → List (PresentMonitoredResource M) → List String → List String
account_present [] accounted = accounted
account_present (r ∷ rs) accounted = account_present rs (Sets.add r.desired_resource_id accounted)

unfoldable pub account_unknown : List UnknownMonitoredResource → List String → List String
account_unknown [] accounted = accounted
account_unknown (r ∷ rs) accounted = account_unknown rs (Sets.add r.desired_resource_id accounted)

-- The two maps that the last loop writes.
pub record Absent : Type 0 where
  pub missing : Map String MissingMonitoredResource
  pub unknown : Map String UnknownMonitoredResource

module _ (k : Kubernetes) where
  open k use {Manifest, manifest_key}

  unfoldable pub lacks_permission : SharedCluster Manifest → DesiredResource Manifest → Bool
  unfolding gvk_is_known_to_cluster
  lacks_permission c d =
      gvk_is_known_to_cluster k c d
      && (elim (c.is_namespaced (group_kind (desired_gvk k d))) [ failed e ↦ true | ok b ↦ false ])

  unfoldable pub permission_message : DesiredResource Manifest → String
  permission_message d =
      let gvk = desired_gvk k d in
      joined (
        "Insufficient permissions to list or watch resources of type " ∷ gvk.kind ∷ " in API group "
        ∷ gvk.group ∷ [])

  -- The loop's step.
  unfoldable pub settle_one :
      String → SharedCluster Manifest → List String → DesiredResource Manifest → Absent → Absent
  unfolding lacks_permission permission_message
  settle_one cluster_id c accounted d s =
      if contains accounted d.id
      then s
      else if lacks_permission c d
      then record s {
        unknown =
            insert d.id (new_unknown_monitored_resource k cluster_id d (permission_message d))
              s.unknown;
      }
      else record s {
        missing = insert d.id (new_missing_monitored_resource k cluster_id d) s.missing;
      }

  unfoldable pub settle :
      String
      → SharedCluster Manifest
      → List String
      → List (DesiredResource Manifest)
      → Absent
      → Absent
  unfolding settle_one
  settle cluster_id c accounted [] s = s
  settle cluster_id c accounted (d ∷ ds) s =
      settle cluster_id c accounted ds (settle_one cluster_id c accounted d s)

  -- From what was found in the cluster to the four maps.
  unfoldable pub finish :
      String
      → SharedCluster Manifest
      → List (DesiredResource Manifest)
      → Map String UnknownMonitoredResource
      → Found Manifest
      → MonitoredResources Manifest
  unfolding account_present account_unknown settle
  finish cluster_id c desired unknown found =
      let accounted =
        account_unknown (values unknown) (account_present (values found.present) []) in
      let absent =
        settle cluster_id c accounted desired (record { missing = []; unknown = unknown }) in
      record {
        present = found.present;
        child = found.child;
        missing = absent.missing;
        unknown = absent.unknown;
      }

  -- The discovered resources, for the live objects that the engine manages.
  unfoldable pub discover :
      SharedCluster Manifest → List Manifest → List (DiscoveredResource Manifest)
  unfolding discovered
  discover c live = discovered (c.iterate_hierarchy (map manifest_key live))

  -- From the engine's answer on.
  unfoldable pub snapshot_of :
      String
      → SharedCluster Manifest
      → Map ResourceKey (DesiredResource Manifest)
      → String
      → Map String UnknownMonitoredResource
      → Result String (List Manifest)
      → Option (Result String (MonitoredResources Manifest))
  unfolding discover record_all finish
  snapshot_of cluster_id c desired salt unknown (failed e) = some (failed e)
  snapshot_of cluster_id c desired salt unknown (ok live) = do
    found ←
        record_all k cluster_id c desired salt (discover c live)
          (record { present = []; child = [] })
    some (ok (finish cluster_id c (values desired) unknown found))

  unfoldable pub get_monitored_resources :
      String
      → SharedCluster Manifest
      → Map ResourceKey (DesiredResource Manifest)
      → String
      → Bool
      → Option (Result String (MonitoredResources Manifest))
  unfolding mark_unknown target_objects snapshot_of
  get_monitored_resources cluster_id c desired salt discovery_healthy =
      let unknown = mark_unknown k cluster_id c discovery_healthy (values desired) [] in
      snapshot_of cluster_id c desired salt unknown (
        c.get_managed_live_objs (target_objects k c unknown (values desired))
          (resource_is_desired k desired))
