-- ===== src/Resources/Monitored.antt =====
-- What the monitor reports: present_, child_, missing_ and unknown_monitored_resource.go and
-- application_instance_changes.go of internal/cluster.
use kubernetes_monitor.Prelude.{ℕ, ◌+◌, String, Option, none, some, List, Result, ok, length}
use kubernetes_monitor.Resources.Libraries.{
  Kubernetes, ResourceKey, GroupVersionKind, HealthStatus, missing, unknown,
}
use kubernetes_monitor.Resources.Desired.{DesiredResource}
use kubernetes_monitor.Resources.Cache.{CacheResource}
use kubernetes_monitor.Resources.Sync.{SyncStatus, SyncStatusCode, new_sync_status, get_sync_status}
use kubernetes_monitor.Resources.Sanitize.{sanitize_manifest}
use kubernetes_monitor.Health.{get_health_status}

pub record PresentMonitoredResource (M : Type 0) : Type 0 where
  pub cluster_id : String
  pub resource_id : String
  pub desired_resource_id : String
  pub status : Option HealthStatus
  pub manifest : Option M
  pub sync_status : SyncStatus
  pub group_version_kind : GroupVersionKind
  pub name : String
  pub namespace : String
  pub resource_version : String

pub record ChildMonitoredResource (M : Type 0) : Type 0 where
  pub cluster_id : String
  pub owner_id : String
  pub resource_id : String
  pub root_owner_id : String
  pub status : Option HealthStatus
  pub manifest : Option M
  pub group_version_kind : GroupVersionKind
  pub name : String
  pub namespace : String
  pub resource_version : String

pub record MissingMonitoredResource : Type 0 where
  pub cluster_id : String
  pub desired_resource_id : String
  pub status : Option HealthStatus
  pub sync_status : SyncStatus
  pub group_version_kind : GroupVersionKind
  pub name : String
  pub namespace : String

pub record UnknownMonitoredResource : Type 0 where
  pub cluster_id : String
  pub desired_resource_id : String
  pub status : Option HealthStatus
  pub sync_status : SyncStatus

pub record ApplicationInstanceChanges (M : Type 0) : Type 0 where
  pub application_instance_id : String
  pub cluster_id : String
  pub present_monitored_resources : List (PresentMonitoredResource M)
  pub child_monitored_resources : List (ChildMonitoredResource M)
  pub missing_monitored_resources : List MissingMonitoredResource
  pub unknown_monitored_resources : List UnknownMonitoredResource
  pub deleted_child_resource_keys : List ResourceKey

unfoldable pub present_key : {M : Type 0} → PresentMonitoredResource M → ResourceKey
present_key r = record {
  group = r.group_version_kind.group;
  kind = r.group_version_kind.kind;
  namespace = r.namespace;
  name = r.name;
}

unfoldable pub child_key : {M : Type 0} → ChildMonitoredResource M → ResourceKey
child_key r = record {
  group = r.group_version_kind.group;
  kind = r.group_version_kind.kind;
  namespace = r.namespace;
  name = r.name;
}

unfoldable pub missing_key : MissingMonitoredResource → ResourceKey
missing_key r = record {
  group = r.group_version_kind.group;
  kind = r.group_version_kind.kind;
  namespace = r.namespace;
  name = r.name;
}

unfoldable pub get_all_resource_count : {M : Type 0} → ApplicationInstanceChanges M → ℕ
get_all_resource_count update =
    length update.present_monitored_resources
    + length update.child_monitored_resources
    + length update.missing_monitored_resources
    + length update.unknown_monitored_resources

-- The sanitized manifest. Its outer option is a panic that never happens (Resources/Sanitized).
abbrev pub or_nil : {M : Type 0} → Option (Option M) → Option M
or_nil none = none
or_nil (some m) = m

module _ (k : Kubernetes) where
  open k use {Manifest, reference_gvk, type_meta_gvk}

  unfoldable pub new_present_monitored_resource :
      String
      → CacheResource Manifest
      → Option Manifest
      → DesiredResource Manifest
      → String
      → Result String (PresentMonitoredResource Manifest)
  new_present_monitored_resource cluster_id new_res manifest desired_resource salt =
      let sanitized = or_nil (sanitize_manifest k new_res manifest salt) in
      ok (record {
        cluster_id = cluster_id;
        desired_resource_id = desired_resource.id;
        status = get_health_status k manifest;
        sync_status = get_sync_status k sanitized desired_resource;
        group_version_kind = reference_gvk new_res.ref;
        name = new_res.ref.name;
        namespace = new_res.ref.namespace;
        resource_id = new_res.ref.uid;
        resource_version = new_res.resource_version;
        manifest = sanitized;
      })

  unfoldable pub new_child_monitored_resource :
      String
      → CacheResource Manifest
      → Option Manifest
      → String
      → String
      → String
      → Result String (ChildMonitoredResource Manifest)
  new_child_monitored_resource cluster_id new_res manifest owner_id root_owner_id salt =
      ok (record {
        cluster_id = cluster_id;
        owner_id = owner_id;
        root_owner_id = root_owner_id;
        status = get_health_status k manifest;
        group_version_kind = reference_gvk new_res.ref;
        name = new_res.ref.name;
        namespace = new_res.ref.namespace;
        resource_id = new_res.ref.uid;
        resource_version = new_res.ref.resource_version;
        manifest = or_nil (sanitize_manifest k new_res manifest salt);
      })

  unfoldable pub new_missing_monitored_resource :
      String → DesiredResource Manifest → MissingMonitoredResource
  new_missing_monitored_resource cluster_id desired_resource = record {
    cluster_id = cluster_id;
    desired_resource_id = desired_resource.id;
    status = some (record { status = missing; message = "" });
    sync_status = new_sync_status desired_resource SyncStatusCode.out_of_sync "" "";
    group_version_kind = type_meta_gvk desired_resource.details.manifest_type;
    name = desired_resource.details.name;
    namespace = desired_resource.details.namespace;
  }

  unfoldable pub new_unknown_monitored_resource :
      String → DesiredResource Manifest → String → UnknownMonitoredResource
  new_unknown_monitored_resource cluster_id desired_resource message = record {
    cluster_id = cluster_id;
    desired_resource_id = desired_resource.id;
    status = some (record { status = unknown; message = message });
    sync_status = new_sync_status desired_resource SyncStatusCode.unknown message "";
  }
