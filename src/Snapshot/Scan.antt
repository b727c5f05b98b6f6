-- ===== src/Snapshot/Scan.antt =====
-- `getMonitoredResources` of internal/cluster/shared_cluster.go, loop by loop. A loop's `continue` is
-- the end of its step.
use kubernetes_monitor.Prelude.{
  String, Bool, true, false, not, Option, none, some, List, [], ◌∷◌, Result, ok, failed, ◌&&◌, ◌==◌,
  string_eq, if◌then◌else◌, is_some, joined, ◌>>=◌,
}
use kubernetes_monitor.Prelude.Sets.{contains}
use kubernetes_monitor.Prelude.Maps.{Map, lookup, insert}
use kubernetes_monitor.Resources.{
  Kubernetes, ResourceKey, GroupVersionKind, key_eq, group_kind_eq, DesiredResource, CacheResource,
  PresentMonitoredResource, ChildMonitoredResource, MissingMonitoredResource,
  UnknownMonitoredResource, child_key, new_present_monitored_resource, new_child_monitored_resource,
  new_unknown_monitored_resource,
}
use kubernetes_monitor.Resources.Libraries.{group_kind}
use kubernetes_monitor.Instance.Owners.{get_root_parent_resource}
use kubernetes_monitor.Snapshot.Connection.{
  SharedCluster, get_first_owner_id, id_or_empty, resolve_manifest,
}

-- The four maps that the function returns.
pub record MonitoredResources (M : Type 0) : Type 0 where
  pub present : Map String (PresentMonitoredResource M)
  pub child : Map ResourceKey (ChildMonitoredResource M)
  pub missing : Map String MissingMonitoredResource
  pub unknown : Map String UnknownMonitoredResource

-- The two maps that grow while the discovered resources are read.
pub record Found (M : Type 0) : Type 0 where
  pub present : Map String (PresentMonitoredResource M)
  pub child : Map ResourceKey (ChildMonitoredResource M)

-- A resource that the hierarchy holds, and the id of its first owner.
pub record DiscoveredResource (M : Type 0) : Type 0 where
  pub resource : CacheResource M
  pub owner_id : String

unfoldable pub gvk_excluded : {M : Type 0} → SharedCluster M → GroupVersionKind → Bool
gvk_excluded c gvk = elim c.is_excluded_resource [
  | none ↦ false
  | some is_excluded ↦ is_excluded gvk.group gvk.kind
]

unfoldable pub discovered :
    {M : Type 0} → List (CacheResource M × List (CacheResource M)) → List (DiscoveredResource M)
discovered [] = []
discovered ((resource, namespace_resources) ∷ rest) =
    record {
      resource = resource;
      owner_id = id_or_empty (get_first_owner_id resource namespace_resources);
    }
    ∷ discovered rest

unfoldable pub non_empty : List String → Bool
non_empty [] = false
non_empty (x ∷ xs) = true

module _ (k : Kubernetes) where
  open k use {Manifest, manifest_namespace, manifest_gvk, manifest_key, type_meta_gvk, gvk_string}

  unfoldable pub desired_gvk : DesiredResource Manifest → GroupVersionKind
  desired_gvk d = type_meta_gvk d.details.manifest_type

  unfoldable pub gvk_is_known_to_cluster : SharedCluster Manifest → DesiredResource Manifest → Bool
  unfolding desired_gvk
  gvk_is_known_to_cluster c d = contains c.api_resources (group_kind (desired_gvk d))

  -- `resourceNamespace`
  unfoldable pub effective_namespace : DesiredResource Manifest → String
  effective_namespace d = elim d.manifest [
    | none ↦ d.details.namespace
    | some m ↦ if manifest_namespace m == "" then d.details.namespace else manifest_namespace m
  ]

  -- The message with which the first loop marks a resource as unknown, if it does.
  unfoldable pub unknown_message :
      SharedCluster Manifest → Bool → DesiredResource Manifest → Option String
  unfolding gvk_is_known_to_cluster effective_namespace gvk_excluded
  unknown_message c discovery_healthy d =
      if not (gvk_is_known_to_cluster c d)
      then if not discovery_healthy then some "" else none
      else if not d.is_namespace_resolved
      then some ""
      else if c.namespace_scoped_mode && d.is_cluster_scoped
      then some "Cluster-scoped resources can't be monitored in namespace-scoped mode"
      else if (non_empty c.target_namespaces && not d.is_cluster_scoped)
          && not (contains c.target_namespaces (effective_namespace d))
      then some (
          joined (
            "Resource namespace \""
            ∷ effective_namespace d
            ∷ "\" is not in the monitored namespace list"
            ∷ []))
      else if gvk_excluded c (desired_gvk d)
      then some (
          joined (
            "Resource "
            ∷ gvk_string (desired_gvk d)
            ∷ " is not in the monitored 'apiGroups' and 'resources' list"
            ∷ []))
      else none

  -- The first loop, and its step.
  unfoldable pub mark_one :
      String
      → DesiredResource Manifest
      → Option String
      → Map String UnknownMonitoredResource
      → Map String UnknownMonitoredResource
  mark_one cluster_id d none unknown = unknown
  mark_one cluster_id d (some message) unknown =
      insert d.id (new_unknown_monitored_resource k cluster_id d message) unknown

  unfoldable pub mark_unknown :
      String
      → SharedCluster Manifest
      → Bool
      → List (DesiredResource Manifest)
      → Map String UnknownMonitoredResource
      → Map String UnknownMonitoredResource
  unfolding unknown_message mark_one
  mark_unknown cluster_id c healthy [] unknown = unknown
  mark_unknown cluster_id c healthy (d ∷ ds) unknown =
      mark_unknown cluster_id c healthy ds
        (mark_one cluster_id d (unknown_message c healthy d) unknown)

  -- The manifest that the second loop hands to the engine, if it does.
  unfoldable pub target_object :
      SharedCluster Manifest
      → Map String UnknownMonitoredResource
      → DesiredResource Manifest
      → Option Manifest
  unfolding gvk_is_known_to_cluster gvk_excluded
  target_object c unknown d =
      if is_some (lookup d.id unknown)
      then none
      else if not (gvk_is_known_to_cluster c d)
      then none
      else elim d.manifest [
        | none ↦ none
        | some m ↦ if gvk_excluded c (manifest_gvk m) then none else some m
      ]

  unfoldable pub target_objects :
      SharedCluster Manifest
      → Map String UnknownMonitoredResource
      → List (DesiredResource Manifest)
      → List Manifest
  unfolding target_object
  target_objects c unknown [] = []
  target_objects c unknown (d ∷ ds) =
      let rest = target_objects c unknown ds in
      elim (target_object c unknown d) [ none ↦ rest | some m ↦ m ∷ rest ]

  unfoldable pub resource_is_desired :
      Map ResourceKey (DesiredResource Manifest) → CacheResource Manifest → Bool
  resource_is_desired desired res = is_some (lookup res.info.resource_key desired)

  -- The manifest of a discovered resource; an error is logged.
  unfoldable pub manifest_of : SharedCluster Manifest → CacheResource Manifest → Option Manifest
  unfolding resolve_manifest
  manifest_of c res = elim (resolve_manifest k c (some res)) [ failed e ↦ none | ok m ↦ m ]

  unfoldable pub file_present :
      Found Manifest → Result String (PresentMonitoredResource Manifest) → Found Manifest
  file_present found (failed e) = found
  file_present found (ok r) = record found {
    present = insert r.desired_resource_id r found.present;
  }

  unfoldable pub file_child :
      Found Manifest → Result String (ChildMonitoredResource Manifest) → Found Manifest
  file_child found (failed e) = found
  file_child found (ok r) = record found { child = insert (child_key r) r found.child }

  -- The step for one discovered resource. `none` is a search for the root that never ends.
  unfoldable pub record_child :
      String
      → String
      → DiscoveredResource Manifest
      → Option Manifest
      → Option String
      → Found Manifest
      → Option (Found Manifest)
  unfolding file_child
  record_child cluster_id salt d manifest none found = none
  record_child cluster_id salt d manifest (some root_owner_id) found = some (
      file_child found (
        new_child_monitored_resource k cluster_id d.resource manifest d.owner_id root_owner_id
          salt))

  unfoldable pub record_as :
      String
      → String
      → DiscoveredResource Manifest
      → Option Manifest
      → Option (DesiredResource Manifest)
      → Found Manifest
      → Option (Found Manifest)
  unfolding file_present record_child
  record_as cluster_id salt d manifest (some desired_resource) found = some (
      file_present found
        (new_present_monitored_resource k cluster_id d.resource manifest desired_resource salt))
  record_as cluster_id salt d manifest none found =
      record_child cluster_id salt d manifest (get_root_parent_resource d.owner_id found.child)
        found

  unfoldable pub record_discovered :
      String
      → SharedCluster Manifest
      → Map ResourceKey (DesiredResource Manifest)
      → String
      → DiscoveredResource Manifest
      → Found Manifest
      → Option (Found Manifest)
  unfolding manifest_of record_as
  record_discovered cluster_id c desired salt d found =
      record_as cluster_id salt d (manifest_of c d.resource)
        (lookup d.resource.info.resource_key desired) found

  unfoldable pub record_all :
      String
      → SharedCluster Manifest
      → Map ResourceKey (DesiredResource Manifest)
      → String
      → List (DiscoveredResource Manifest)
      → Found Manifest
      → Option (Found Manifest)
  unfolding record_discovered
  record_all cluster_id c desired salt [] found = some found
  record_all cluster_id c desired salt (d ∷ ds) found = do
    found' ← record_discovered cluster_id c desired salt d found
    record_all cluster_id c desired salt ds found'
