-- ===== src/Protos/Totals.antt =====
-- The parts of messages, and the loops over missing and unknown resources, of
-- internal/protos/request_mappers.go: on sync statuses that the monitor knows they do not panic, and
-- each message says its resource.
use kubernetes_monitor.Prelude.{
  ◌≡◌, refl, String, Option, none, some, List, [], ◌∷◌, string_eq, All,
}
use kubernetes_monitor.Resources as Resources
use kubernetes_monitor.Resources.{ApplicationInstanceChanges, HealthStatus, HealthStatusCode}
use kubernetes_monitor.Protos.Messages.{
  SyncStatus, MissingMonitoredResource, UnknownMonitoredResource,
}
use kubernetes_monitor.Protos.{
  to_cluster_id, to_desired_resource_id, to_sync_status, to_resource_status,
  to_resource_status_code, to_resource_keys, to_resource_key,
}
use kubernetes_monitor.Protos.Requests.{
  to_details, missing_message, unknown_message, to_missing_resource, to_missing_monitored_resources,
  to_unknown_resource, to_unknown_monitored_resources,
}
use kubernetes_monitor.Protos.Codes.{IsRecognised, to_sync_status_total, read_sync-to_sync_status}
use kubernetes_monitor.Protos.Said.{
  SaysCode, SaysHealth, SaysDetails, SaysMissing, SaysUnknown, SaysKey, SayAll,
}

-- Every sync status in the changes is one that the monitor knows.
pub record IsReportable {M : Type 0} (update : ApplicationInstanceChanges M) : Type 0 where
  pub present : All (λ r. IsRecognised r.sync_status) update.present_monitored_resources
  pub missing : All (λ r. IsRecognised r.sync_status) update.missing_monitored_resources
  pub unknown : All (λ r. IsRecognised r.sync_status) update.unknown_monitored_resources

SaysCode-to_code : (c : HealthStatusCode) → SaysCode c (to_resource_status_code c)
unfolding to_resource_status_code
SaysCode-to_code HealthStatusCode.unknown = refl
SaysCode-to_code HealthStatusCode.degraded = refl
SaysCode-to_code HealthStatusCode.missing = refl
SaysCode-to_code HealthStatusCode.suspended = refl
SaysCode-to_code HealthStatusCode.progressing = refl
SaysCode-to_code HealthStatusCode.healthy = refl
SaysCode-to_code (HealthStatusCode.other text) = refl

pub SaysHealth-to_status : (s : Option HealthStatus) → SaysHealth s (to_resource_status s)
unfolding to_resource_status
SaysHealth-to_status none = (refl, refl)
SaysHealth-to_status (some s) = (refl, SaysCode-to_code s.status)

pub SaysDetails-to_details :
    (gvk : Resources.GroupVersionKind) (name namespace : String)
    → SaysDetails gvk name namespace (to_details gvk name namespace)
unfolding to_details
SaysDetails-to_details gvk name namespace = record {
  says_name = refl;
  says_namespace = refl;
  says_group = refl;
  says_version = refl;
  says_kind = refl;
}

missing_message-Says :
    (r : Resources.MissingMonitoredResource) (s : SyncStatus)
    → to_sync_status r.sync_status ≡ some s
    → SaysMissing r (missing_message r s)
unfolding missing_message to_cluster_id to_desired_resource_id
missing_message-Says r s e = record {
  says_id = refl;
  says_cluster = refl;
  says_details = SaysDetails-to_details r.group_version_kind r.name r.namespace;
  says_health = SaysHealth-to_status r.status;
  says_sync = (read_sync-to_sync_status r.sync_status s e).0;
}

unknown_message-Says :
    (r : Resources.UnknownMonitoredResource) (s : SyncStatus)
    → to_sync_status r.sync_status ≡ some s
    → SaysUnknown r (unknown_message r s)
unfolding unknown_message to_cluster_id to_desired_resource_id
unknown_message-Says r s e = record {
  says_id = refl;
  says_cluster = refl;
  says_health = SaysHealth-to_status r.status;
  says_sync = (read_sync-to_sync_status r.sync_status s e).0;
}

pub to_missing_total :
    (rs : List Resources.MissingMonitoredResource)
    → All (λ r. IsRecognised r.sync_status) rs
    → (sent : List MissingMonitoredResource) × (to_missing_monitored_resources rs ≡ some sent)
      × SayAll SaysMissing rs sent
unfolding to_missing_monitored_resources to_missing_resource
to_missing_total [] h = ([], refl, tt)
to_missing_total (r ∷ rs) h =
    let (sync_status, e) = to_sync_status_total r.sync_status h.0 in
    let (sent, es, says) = to_missing_total rs h.1 in
    (
      missing_message r sync_status ∷ sent,
      rw (e, es) refl,
      (missing_message-Says r sync_status e, says),
    )

pub to_unknown_total :
    (rs : List Resources.UnknownMonitoredResource)
    → All (λ r. IsRecognised r.sync_status) rs
    → (sent : List UnknownMonitoredResource) × (to_unknown_monitored_resources rs ≡ some sent)
      × SayAll SaysUnknown rs sent
unfolding to_unknown_monitored_resources to_unknown_resource
to_unknown_total [] h = ([], refl, tt)
to_unknown_total (r ∷ rs) h =
    let (sync_status, e) = to_sync_status_total r.sync_status h.0 in
    let (sent, es, says) = to_unknown_total rs h.1 in
    (
      unknown_message r sync_status ∷ sent,
      rw (e, es) refl,
      (unknown_message-Says r sync_status e, says),
    )

pub SayAll-to_resource_keys :
    (keys : List Resources.ResourceKey) → SayAll SaysKey keys (to_resource_keys keys)
unfolding to_resource_keys to_resource_key
SayAll-to_resource_keys [] = tt
SayAll-to_resource_keys (key ∷ keys) = (
  record { says_group = refl; says_kind = refl; says_namespace = refl; says_name = refl },
  SayAll-to_resource_keys keys,
)
