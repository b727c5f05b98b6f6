-- ===== src/Instance/State.antt =====
-- The struct of internal/cluster/application_instance.go and the methods that edit its maps.
use kubernetes_monitor.Prelude.{
  String, Bool, true, false, not, none, some, List, [], ◌∷◌, ◌++◌, ◌==◌, string_eq, if◌then◌else◌,
}
use kubernetes_monitor.Prelude.Sets
use kubernetes_monitor.Prelude.Sets.{contains}
use kubernetes_monitor.Prelude.Maps.{Map, values, lookup, insert, delete, delete_func}
use kubernetes_monitor.Resources.{
  Kubernetes, ResourceKey, TypeMeta, key_eq, DesiredResource, PresentMonitoredResource,
  ChildMonitoredResource, MissingMonitoredResource, UnknownMonitoredResource,
  ApplicationInstanceChanges, resource_key, resolve_namespace, present_key, child_key,
  new_unknown_monitored_resource,
}

pub record ApplicationInstance (M : Type 0) : Type 0 where
  pub application_instance_id : String
  pub hash_salt : String
  pub desired_resources : Map ResourceKey (DesiredResource M)
  pub present_monitored_resources : Map String (PresentMonitoredResource M)
  pub child_monitored_resources : Map ResourceKey (ChildMonitoredResource M)
  pub missing_monitored_resources : Map String MissingMonitoredResource
  pub unknown_monitored_resources : Map String UnknownMonitoredResource
  pub tracked_resource_keys : List ResourceKey

unfoldable pub new_application_instance : {M : Type 0} → String → String → ApplicationInstance M
new_application_instance id hash_salt = record {
  application_instance_id = id;
  hash_salt = hash_salt;
  desired_resources = [];
  present_monitored_resources = [];
  child_monitored_resources = [];
  missing_monitored_resources = [];
  unknown_monitored_resources = [];
  tracked_resource_keys = [];
}

-- `trackedResourceKeys` as `replaceMonitoredResources` builds it: two loops over values.
unfoldable pub add_present_keys :
    {M : Type 0} → List (PresentMonitoredResource M) → List ResourceKey → List ResourceKey
add_present_keys [] tracked = tracked
add_present_keys (r ∷ rs) tracked = add_present_keys rs (Sets.add (present_key r) tracked)

unfoldable pub add_child_keys :
    {M : Type 0} → List (ChildMonitoredResource M) → List ResourceKey → List ResourceKey
add_child_keys [] tracked = tracked
add_child_keys (r ∷ rs) tracked = add_child_keys rs (Sets.add (child_key r) tracked)

unfoldable pub replace_monitored_resources :
    {M : Type 0}
    → Map String (PresentMonitoredResource M)
    → Map ResourceKey (ChildMonitoredResource M)
    → Map String MissingMonitoredResource
    → Map String UnknownMonitoredResource
    → ApplicationInstance M
    → ApplicationInstance M
unfolding add_present_keys add_child_keys
replace_monitored_resources present child missing unknown a = record a {
  present_monitored_resources = present;
  child_monitored_resources = child;
  missing_monitored_resources = missing;
  unknown_monitored_resources = unknown;
  tracked_resource_keys = add_child_keys (values child) (add_present_keys (values present) []);
}

-- A resource with a version other than the one to keep.
unfoldable pub is_other_version : {M : Type 0} → String → DesiredResource M → Bool
is_other_version version_to_keep d = elim d.version [
  | none ↦ false
  | some version ↦ not (version == version_to_keep)
]

unfoldable pub delete_desired_resources_except_for_version :
    {M : Type 0} → String → ApplicationInstance M → ApplicationInstance M
delete_desired_resources_except_for_version version_to_keep a = record a {
  desired_resources = delete_func (λ _ d. is_other_version version_to_keep d) a.desired_resources;
}

unfoldable pub delete_desired_resources :
    {M : Type 0} → List String → ApplicationInstance M → ApplicationInstance M
delete_desired_resources resource_ids a = record a {
  desired_resources = delete_func (λ _ d. contains resource_ids d.id) a.desired_resources;
}

unfoldable pub monitored_resource_changes :
    {M : Type 0} → String → ApplicationInstance M → ApplicationInstanceChanges M
monitored_resource_changes cluster_id a = record {
  application_instance_id = a.application_instance_id;
  cluster_id = cluster_id;
  present_monitored_resources = values a.present_monitored_resources;
  child_monitored_resources = values a.child_monitored_resources;
  missing_monitored_resources = values a.missing_monitored_resources;
  unknown_monitored_resources = values a.unknown_monitored_resources;
  deleted_child_resource_keys = [];
}

unfoldable pub upsert_present_monitored_resource :
    {M : Type 0} → PresentMonitoredResource M → ApplicationInstance M → ApplicationInstance M
upsert_present_monitored_resource r a = record a {
  tracked_resource_keys = Sets.add (present_key r) a.tracked_resource_keys;
  present_monitored_resources = insert r.desired_resource_id r a.present_monitored_resources;
}

unfoldable pub delete_present_monitored_resource :
    {M : Type 0} → String → ApplicationInstance M → ApplicationInstance M
delete_present_monitored_resource id a = elim (lookup id a.present_monitored_resources) [
  | none ↦ a
  | some r ↦ record a {
    tracked_resource_keys = Sets.remove (present_key r) a.tracked_resource_keys;
    present_monitored_resources = delete id a.present_monitored_resources;
  }
]

unfoldable pub upsert_child_monitored_resource :
    {M : Type 0} → ChildMonitoredResource M → ApplicationInstance M → ApplicationInstance M
upsert_child_monitored_resource r a = record a {
  tracked_resource_keys = Sets.add (child_key r) a.tracked_resource_keys;
  child_monitored_resources = insert (child_key r) r a.child_monitored_resources;
}

unfoldable pub delete_child_monitored_resource :
    {M : Type 0} → ResourceKey → ApplicationInstance M → ApplicationInstance M
delete_child_monitored_resource key a = elim (lookup key a.child_monitored_resources) [
  | none ↦ a
  | some r ↦ record a {
    tracked_resource_keys = Sets.remove (child_key r) a.tracked_resource_keys;
    child_monitored_resources = delete key a.child_monitored_resources;
  }
]

unfoldable pub upsert_missing_monitored_resource :
    {M : Type 0} → MissingMonitoredResource → ApplicationInstance M → ApplicationInstance M
upsert_missing_monitored_resource r a = record a {
  missing_monitored_resources = insert r.desired_resource_id r a.missing_monitored_resources;
}

unfoldable pub delete_missing_monitored_resource :
    {M : Type 0} → String → ApplicationInstance M → ApplicationInstance M
delete_missing_monitored_resource id a = record a {
  missing_monitored_resources = delete id a.missing_monitored_resources;
}

module _ (k : Kubernetes) where
  open k use {Manifest}

  -- The loop of `MergeDesiredResources` over the incoming resources.
  unfoldable pub merge_desired_resources :
      String
      → Map ResourceKey (DesiredResource Manifest)
      → ApplicationInstance Manifest
      → ApplicationInstance Manifest
  merge_desired_resources cluster_id [] a = a
  merge_desired_resources cluster_id ((key, d) ∷ incoming) a =
      merge_desired_resources cluster_id incoming (record a {
        unknown_monitored_resources =
            insert d.id (new_unknown_monitored_resource k cluster_id d "")
              a.unknown_monitored_resources;
        desired_resources = insert key d a.desired_resources;
      })

  -- The loop of `ReplaceDesiredResources` that sets everything to unknown.
  unfoldable pub all_unknown :
      String
      → Map ResourceKey (DesiredResource Manifest)
      → Map String UnknownMonitoredResource
      → Map String UnknownMonitoredResource
  all_unknown cluster_id [] unknown = unknown
  all_unknown cluster_id ((key, d) ∷ desired) unknown =
      all_unknown cluster_id desired
        (insert d.id (new_unknown_monitored_resource k cluster_id d "") unknown)

  unfoldable pub replace_desired_resources :
      String
      → Map ResourceKey (DesiredResource Manifest)
      → ApplicationInstance Manifest
      → ApplicationInstance Manifest
  unfolding all_unknown replace_monitored_resources
  replace_desired_resources cluster_id desired a =
      replace_monitored_resources [] [] [] (all_unknown cluster_id desired [])
        (record a { desired_resources = desired })

  -- The loop of `resolveNamespaces`: the map under the resolved keys, and whether each was found.
  unfoldable pub resolve_all :
      Map TypeMeta Bool
      → Map ResourceKey (DesiredResource Manifest)
      → Map ResourceKey (DesiredResource Manifest) × Bool
      → Map ResourceKey (DesiredResource Manifest) × Bool
  resolve_all namespaced_map [] (resolved, all_found) = (resolved, all_found)
  resolve_all namespaced_map ((key, d) ∷ desired) (resolved, all_found) =
      let (d', found) = resolve_namespace k namespaced_map d in
      resolve_all namespaced_map desired (
        if not found
        then (insert key d' resolved, false)
        else (insert (resource_key k d') d' resolved, all_found))

  unfoldable pub resolve_namespaces :
      Map TypeMeta Bool → ApplicationInstance Manifest → ApplicationInstance Manifest × Bool
  unfolding resolve_all
  resolve_namespaces namespaced_map a =
      let (resolved, all_found) = resolve_all namespaced_map a.desired_resources ([], true) in
      (record a { desired_resources = resolved }, all_found)

  -- The keys that `resourceKeysOfInterest` yields, in order, repetitions included.
  unfoldable pub desired_keys : Map ResourceKey (DesiredResource Manifest) → List ResourceKey
  desired_keys [] = []
  desired_keys ((key, d) ∷ desired) = key ∷ resource_key k d ∷ desired_keys desired

  unfoldable pub resource_keys_of_interest : ApplicationInstance Manifest → List ResourceKey
  unfolding desired_keys
  resource_keys_of_interest a = desired_keys a.desired_resources ++ a.tracked_resource_keys
