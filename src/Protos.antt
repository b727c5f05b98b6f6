-- ===== src/Protos.antt =====
-- internal/protos/type_mappers.go: the monitor's types as the messages that are exchanged with
-- Octopus. `none` in place of a message is a panic.
pub mod Messages
pub mod Requests
pub mod Updates
pub mod Commands
pub mod Codes
pub mod Said
pub mod Totals
pub mod Outcomes
pub mod Sent
pub mod Present
use kubernetes_monitor.Prelude.{ℕ, String, Option, none, some, List, [], ◌∷◌}
use kubernetes_monitor.Resources as Resources
use kubernetes_monitor.Resources.{HealthStatus, HealthStatusCode}
use kubernetes_monitor.Resources.Sync as Sync
use kubernetes_monitor.Logs as Logs
use kubernetes_monitor.Events as Events
use kubernetes_monitor.Protos.Messages as Messages
use kubernetes_monitor.Protos.Messages.{
  ApplicationInstanceId, ClusterId, Version, Uuid, DesiredResourceId, ResourceStatusCode,
  ResourceStatus, SyncStatusCode, SyncStatus,
}

-- `FromProto` reads the value through the getter: that of a message that is not set is empty.
unfoldable pub application_instance_id_from_proto : Option ApplicationInstanceId → String
application_instance_id_from_proto none = ""
application_instance_id_from_proto (some v) = v.value

unfoldable pub to_application_instance_id : String → ApplicationInstanceId
to_application_instance_id v = record { value = v }

unfoldable pub cluster_id_from_proto : Option ClusterId → String
cluster_id_from_proto none = ""
cluster_id_from_proto (some v) = v.value

unfoldable pub to_cluster_id : String → ClusterId
to_cluster_id v = record { value = v }

unfoldable pub version_from_proto : Option Version → String
version_from_proto none = ""
version_from_proto (some v) = v.value

unfoldable pub version_from_proto_or_nil : Option Version → Option String
unfolding version_from_proto
version_from_proto_or_nil none = none
version_from_proto_or_nil (some v) = some (version_from_proto (some v))

unfoldable pub to_uuid : String → Uuid
to_uuid v = record { value = v }

unfoldable pub to_resource_key : Resources.ResourceKey → Messages.ResourceKey
to_resource_key val = record {
  name = val.name;
  kubernetes_namespace = val.namespace;
  group = val.group;
  kind = val.kind;
}

unfoldable pub to_resource_keys : List Resources.ResourceKey → List Messages.ResourceKey
unfolding to_resource_key
to_resource_keys [] = []
to_resource_keys (val ∷ v) = to_resource_key val ∷ to_resource_keys v

unfoldable pub desired_resource_id_from_proto : Option DesiredResourceId → String
desired_resource_id_from_proto none = ""
desired_resource_id_from_proto (some v) = v.value

unfoldable pub to_desired_resource_id : String → DesiredResourceId
to_desired_resource_id v = record { value = v }

-- A status that no case names keeps the enumeration's zero value.
unfoldable pub to_resource_status_code : HealthStatusCode → ResourceStatusCode
to_resource_status_code HealthStatusCode.unknown = ResourceStatusCode.unknown
to_resource_status_code HealthStatusCode.degraded = ResourceStatusCode.degraded
to_resource_status_code HealthStatusCode.missing = ResourceStatusCode.missing
to_resource_status_code HealthStatusCode.suspended = ResourceStatusCode.suspended
to_resource_status_code HealthStatusCode.progressing = ResourceStatusCode.progressing
to_resource_status_code HealthStatusCode.healthy = ResourceStatusCode.healthy
to_resource_status_code (HealthStatusCode.other s) = ResourceStatusCode.unspecified

unfoldable pub to_resource_status : Option HealthStatus → ResourceStatus
unfolding to_resource_status_code
to_resource_status none = record {
  resource_status_code = ResourceStatusCode.not_applicable;
  message = "Status not applicable";
}
to_resource_status (some s) = record {
  resource_status_code = to_resource_status_code s.status;
  message = s.message;
}

-- The `switch`, whose default panics.
unfoldable pub to_sync_status_code : Sync.SyncStatusCode → Option SyncStatusCode
to_sync_status_code Sync.SyncStatusCode.unknown = some SyncStatusCode.unknown
to_sync_status_code Sync.SyncStatusCode.in_sync = some SyncStatusCode.in_sync
to_sync_status_code Sync.SyncStatusCode.out_of_sync = some SyncStatusCode.out_of_sync
to_sync_status_code Sync.SyncStatusCode.not_applicable = some SyncStatusCode.not_applicable
to_sync_status_code Sync.SyncStatusCode.orphaned = some SyncStatusCode.orphaned
to_sync_status_code (Sync.SyncStatusCode.unrecognised s) = none

unfoldable pub map_to_v1_sync_status_code : SyncStatusCode → SyncStatusCode
map_to_v1_sync_status_code SyncStatusCode.orphaned = SyncStatusCode.not_applicable
map_to_v1_sync_status_code code = code

-- The message with a code.
unfoldable pub sync_status_with : Sync.SyncStatus → Option SyncStatusCode → Option SyncStatus
unfolding map_to_v1_sync_status_code
sync_status_with s none = none
sync_status_with s (some code) = some (record {
  sync_status_code = map_to_v1_sync_status_code code;
  sync_status_code_v2 = code;
  message = s.message;
  json_patch = s.json_patch;
})

unfoldable pub to_sync_status : Sync.SyncStatus → Option SyncStatus
unfolding to_sync_status_code sync_status_with
to_sync_status s = sync_status_with s (to_sync_status_code s.status)

-- `timestamppb.New` of an instant is that instant.
unfoldable pub to_log_line : Logs.LogLine → Messages.LogLine
to_log_line line = record { message = line.message; timestamp = line.timestamp }

unfoldable pub to_log_lines : List Logs.LogLine → List Messages.LogLine
unfolding to_log_line
to_log_lines [] = []
to_log_lines (line ∷ lines) = to_log_line line ∷ to_log_lines lines

unfoldable pub to_event : Events.Event → Messages.Event
to_event e = record {
  first_observed_time = e.first_observed_time;
  last_observed_time = e.last_observed_time;
  count = e.count;
  action = e.action;
  reason = e.reason;
  note = e.note;
  reporting_controller = e.reporting_controller;
  reporting_instance = e.reporting_instance;
  event_type = e.event_type;
  manifest = record { value = e.manifest };
}

unfoldable pub to_events : List Events.Event → List Messages.Event
unfolding to_event
to_events [] = []
to_events (e ∷ es) = to_event e ∷ to_events es
