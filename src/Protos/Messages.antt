-- ===== src/Protos/Messages.antt =====
-- The messages that internal/protos/definitions declares, as far as the mappers of internal/protos
-- fill them. The Go types are generated. A timestamp is an instant, as a number.
use kubernetes_monitor.Prelude.{ℕ, String, Option, List}

-- The messages that wrap one text.
pub record ApplicationInstanceId : Type 0 where
  pub value : String

pub record ClusterId : Type 0 where
  pub value : String

pub record Version : Type 0 where
  pub value : String

pub record Uuid : Type 0 where
  pub value : String

pub record DesiredResourceId : Type 0 where
  pub value : String

pub record YamlManifest : Type 0 where
  pub value : String

-- `unspecified` is the zero value of an enumeration.
pub data ResourceStatusCode : Type 0 where
  unspecified unknown degraded missing suspended progressing healthy not_applicable :
      ResourceStatusCode

pub data SyncStatusCode : Type 0 where
  unspecified unknown in_sync out_of_sync not_applicable orphaned : SyncStatusCode

pub record ResourceStatus : Type 0 where
  pub resource_status_code : ResourceStatusCode
  pub message : String

pub record SyncStatus : Type 0 where
  pub sync_status_code : SyncStatusCode
  pub sync_status_code_v2 : SyncStatusCode
  pub message : String
  pub json_patch : String

pub record GroupVersionKind : Type 0 where
  pub group : String
  pub version : String
  pub kind : String

pub record ResourceKey : Type 0 where
  pub name : String
  pub kubernetes_namespace : String
  pub group : String
  pub kind : String

pub record ResourceDetails : Type 0 where
  pub name : String
  pub kubernetes_namespace : String
  pub group_version_kind : GroupVersionKind

pub record PresentMonitoredResource : Type 0 where
  pub resource_uuid : Uuid
  pub resource_details : ResourceDetails
  pub resource_status : ResourceStatus
  pub resource_sync_status : SyncStatus
  pub cluster_id : ClusterId
  pub desired_resource_id : DesiredResourceId
  pub manifest : YamlManifest

pub record ChildMonitoredResource : Type 0 where
  pub resource_uuid : Uuid
  pub parent_resource_uuid : Uuid
  pub root_parent_resource_uuid : Uuid
  pub resource_details : ResourceDetails
  pub resource_status : ResourceStatus
  pub cluster_id : ClusterId
  pub manifest : YamlManifest

pub record MissingMonitoredResource : Type 0 where
  pub resource_details : ResourceDetails
  pub resource_status : ResourceStatus
  pub resource_sync_status : SyncStatus
  pub cluster_id : ClusterId
  pub desired_resource_id : DesiredResourceId

pub record UnknownMonitoredResource : Type 0 where
  pub cluster_id : ClusterId
  pub desired_resource_id : DesiredResourceId
  pub resource_status : ResourceStatus
  pub resource_sync_status : SyncStatus

-- The update and the replacement carry the same fields.
pub record UpdateMonitoredResourcesRequest : Type 0 where
  pub application_instance_id : ApplicationInstanceId
  pub cluster_id : ClusterId
  pub present_monitored_resources : List PresentMonitoredResource
  pub child_monitored_resources : List ChildMonitoredResource
  pub missing_monitored_resources : List MissingMonitoredResource
  pub unknown_monitored_resources : List UnknownMonitoredResource

pub record ReplaceMonitoredResourcesRequest : Type 0 where
  pub application_instance_id : ApplicationInstanceId
  pub cluster_id : ClusterId
  pub present_monitored_resources : List PresentMonitoredResource
  pub child_monitored_resources : List ChildMonitoredResource
  pub missing_monitored_resources : List MissingMonitoredResource
  pub unknown_monitored_resources : List UnknownMonitoredResource

pub record DeleteChildMonitoredResourcesRequest : Type 0 where
  pub application_instance_id : ApplicationInstanceId
  pub cluster_id : ClusterId
  pub resource_keys : List ResourceKey

-- The messages in a command, where a message that is not set is `none`.
pub record DesiredResourceDetails : Type 0 where
  pub name : String
  pub assumed_namespace : String
  pub group_version_kind : Option GroupVersionKind

pub record DesiredResource : Type 0 where
  pub desired_resource_id : Option DesiredResourceId
  pub resource_details : Option DesiredResourceDetails
  pub manifest : Option YamlManifest
  pub orphaned_at : Option ℕ

pub record UpdateDesiredResourcesCommand : Type 0 where
  pub application_instance_id : Option ApplicationInstanceId
  pub cluster_id : Option ClusterId
  pub version : Option Version
  pub desired_resources : List DesiredResource
  pub hash_salt : String

pub record ReplaceDesiredResourcesCommand : Type 0 where
  pub application_instance_id : Option ApplicationInstanceId
  pub cluster_id : Option ClusterId
  pub desired_resources : List DesiredResource
  pub hash_salt : String

pub record PruneOtherVersionsCommand : Type 0 where
  pub application_instance_id : Option ApplicationInstanceId
  pub cluster_id : Option ClusterId
  pub version : Option Version

pub record DeleteDesiredResourcesCommand : Type 0 where
  pub application_instance_id : Option ApplicationInstanceId
  pub cluster_id : Option ClusterId
  pub resource_ids : List (Option DesiredResourceId)

pub data ServerToClientStream : Type 0 where
  update_desired_resources_command : UpdateDesiredResourcesCommand → ServerToClientStream
  prune_other_versions_command : PruneOtherVersionsCommand → ServerToClientStream
  delete_desired_resources_command : DeleteDesiredResourcesCommand → ServerToClientStream
  replace_desired_resources_command : ReplaceDesiredResourcesCommand → ServerToClientStream
  unrecognised : ServerToClientStream

-- The message's bytes.
pub record LogLine : Type 0 where
  pub message : List ℕ
  pub timestamp : ℕ

pub record Event : Type 0 where
  pub first_observed_time : ℕ
  pub last_observed_time : ℕ
  pub count : ℕ
  pub action : String
  pub reason : String
  pub note : String
  pub reporting_controller : String
  pub reporting_instance : String
  pub event_type : String
  pub manifest : YamlManifest
