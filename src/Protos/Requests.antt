-- ===== src/Protos/Requests.antt =====
-- internal/protos/request_mappers.go: the resources that its requests report. The lists of
-- the changes hold no nil pointers here, as the values of the monitor's maps are never nil. `none` in
-- place of an outcome is a panic.
use kubernetes_monitor.Prelude.{
  String, Option, none, some, List, [], ◌∷◌, Result, ok, failed, ◌==◌, string_eq, if◌then◌else◌,
  ◌>>=◌, joined,
}
use kubernetes_monitor.Resources as Resources
use kubernetes_monitor.Resources.{ApplicationInstanceChanges, get_all_resource_count}
use kubernetes_monitor.Protos.Messages.{
  ResourceDetails, SyncStatus, PresentMonitoredResource, ChildMonitoredResource,
  MissingMonitoredResource, UnknownMonitoredResource,
}
use kubernetes_monitor.Protos.{
  to_cluster_id, to_uuid, to_desired_resource_id, to_resource_status, to_sync_status,
}

-- The text of the errors, `fmt.Errorf("… for %s/%s %s: %s in %s", …)`.
unfoldable pub describe : String → Resources.GroupVersionKind → String → String → String
describe problem gvk name namespace = joined (
    problem ∷ " for " ∷ gvk.group ∷ "/" ∷ gvk.version ∷ " " ∷ gvk.kind ∷ ": " ∷ name ∷ " in "
    ∷ namespace ∷ [])

unfoldable pub to_details : Resources.GroupVersionKind → String → String → ResourceDetails
to_details gvk name namespace = record {
  name = name;
  kubernetes_namespace = namespace;
  group_version_kind = record { group = gvk.group; version = gvk.version; kind = gvk.kind };
}

-- `append` to the errors, or to what is sent, in front of what the rest of the loop adds.
unfoldable pub collect {ℓ} :
    {A : Type ℓ} → Result String A → List A × List String → List A × List String
collect (ok sent) (resources, errors) = (sent ∷ resources, errors)
collect (failed e) (resources, errors) = (resources, e ∷ errors)

-- The two loops over what can fail.
unfoldable pub each {ℓ κ} :
    {A : Type ℓ} {B : Type κ}
    → (A → Option (Result String B))
    → List A
    → Option (List B × List String)
unfolding collect
each f [] = some ([], [])
each f (r ∷ rs) = do outcome ← f r; rest ← each f rs; some (collect outcome rest)

module _ {M : Type 0} where
  unfoldable pub present_message :
      Resources.PresentMonitoredResource M → String → SyncStatus → PresentMonitoredResource
  unfolding to_details
  present_message r raw_manifest sync_status = record {
    resource_uuid = to_uuid r.resource_id;
    resource_details = to_details r.group_version_kind r.name r.namespace;
    resource_status = to_resource_status r.status;
    resource_sync_status = sync_status;
    cluster_id = to_cluster_id r.cluster_id;
    desired_resource_id = to_desired_resource_id r.desired_resource_id;
    manifest = record { value = raw_manifest };
  }

  -- Behind the guards.
  unfoldable pub present_with :
      Resources.PresentMonitoredResource M
      → Result String String
      → Option SyncStatus
      → Option (Result String PresentMonitoredResource)
  unfolding present_message
  present_with r (failed e) sync_status = some (failed e)
  present_with r (ok raw_manifest) none = none
  present_with r (ok raw_manifest) (some sync_status) =
      some (ok (present_message r raw_manifest sync_status))

  unfoldable pub child_with :
      Resources.ChildMonitoredResource M
      → Result String String
      → Result String ChildMonitoredResource
  unfolding to_details
  child_with r (failed e) = failed e
  child_with r (ok raw_manifest) = ok (record {
    resource_uuid = to_uuid r.resource_id;
    parent_resource_uuid = to_uuid r.owner_id;
    root_parent_resource_uuid = to_uuid r.root_owner_id;
    resource_details = to_details r.group_version_kind r.name r.namespace;
    resource_status = to_resource_status r.status;
    cluster_id = to_cluster_id r.cluster_id;
    manifest = record { value = raw_manifest };
  })

module _ {M : Type 0} (marshal : M → Result String String) where
  unfoldable pub to_present_monitored_resource :
      Resources.PresentMonitoredResource M → Option (Result String PresentMonitoredResource)
  unfolding describe present_with
  to_present_monitored_resource r =
      if r.resource_id == ""
      then some (failed (describe "ResourceId is empty" r.group_version_kind r.name r.namespace))
      else elim r.manifest [
        | none ↦ some (failed (describe "Manifest is nil" r.group_version_kind r.name r.namespace))
        | some m ↦ present_with r (marshal m) (to_sync_status r.sync_status)
      ]

  unfoldable pub to_present_monitored_resources :
      List (Resources.PresentMonitoredResource M)
      → Option (List PresentMonitoredResource × List String)
  unfolding each to_present_monitored_resource
  to_present_monitored_resources resources = each to_present_monitored_resource resources

  unfoldable pub to_child_monitored_resource :
      Resources.ChildMonitoredResource M → Result String ChildMonitoredResource
  unfolding describe child_with
  to_child_monitored_resource r =
      if r.resource_id == ""
      then failed (describe "ResourceId is empty" r.group_version_kind r.name r.namespace)
      else if r.owner_id == ""
      then failed (describe "OwnerId is empty" r.group_version_kind r.name r.namespace)
      else if r.root_owner_id == ""
      then failed (describe "RootOwnerId is empty" r.group_version_kind r.name r.namespace)
      else elim r.manifest [
        | none ↦ failed (describe "Manifest is nil" r.group_version_kind r.name r.namespace)
        | some m ↦ child_with r (marshal m)
      ]

  unfoldable pub to_child_monitored_resources :
      List (Resources.ChildMonitoredResource M) → Option (List ChildMonitoredResource × List String)
  unfolding each to_child_monitored_resource
  to_child_monitored_resources resources =
      each (λ r. some (to_child_monitored_resource r)) resources

unfoldable pub missing_message :
    Resources.MissingMonitoredResource → SyncStatus → MissingMonitoredResource
unfolding to_details
missing_message r sync_status = record {
  resource_details = to_details r.group_version_kind r.name r.namespace;
  resource_status = to_resource_status r.status;
  resource_sync_status = sync_status;
  cluster_id = to_cluster_id r.cluster_id;
  desired_resource_id = to_desired_resource_id r.desired_resource_id;
}

unfoldable pub to_missing_resource :
    Resources.MissingMonitoredResource → Option MissingMonitoredResource
unfolding missing_message
to_missing_resource r = do
  sync_status ← to_sync_status r.sync_status
  some (missing_message r sync_status)

unfoldable pub to_missing_monitored_resources :
    List Resources.MissingMonitoredResource → Option (List MissingMonitoredResource)
unfolding to_missing_resource
to_missing_monitored_resources [] = some []
to_missing_monitored_resources (r ∷ rs) = do
  sent ← to_missing_resource r
  rest ← to_missing_monitored_resources rs
  some (sent ∷ rest)

unfoldable pub unknown_message :
    Resources.UnknownMonitoredResource → SyncStatus → UnknownMonitoredResource
unknown_message r sync_status = record {
  cluster_id = to_cluster_id r.cluster_id;
  desired_resource_id = to_desired_resource_id r.desired_resource_id;
  resource_status = to_resource_status r.status;
  resource_sync_status = sync_status;
}

unfoldable pub to_unknown_resource :
    Resources.UnknownMonitoredResource → Option UnknownMonitoredResource
unfolding unknown_message
to_unknown_resource r = do
  sync_status ← to_sync_status r.sync_status
  some (unknown_message r sync_status)

unfoldable pub to_unknown_monitored_resources :
    List Resources.UnknownMonitoredResource → Option (List UnknownMonitoredResource)
unfolding to_unknown_resource
to_unknown_monitored_resources [] = some []
to_unknown_monitored_resources (r ∷ rs) = do
  sent ← to_unknown_resource r
  rest ← to_unknown_monitored_resources rs
  some (sent ∷ rest)
