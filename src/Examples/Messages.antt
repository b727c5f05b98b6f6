-- ===== src/Examples/Messages.antt =====
-- Runs of the theorems on the messages to Octopus, with manifests that are texts.
use kubernetes_monitor.Prelude.{◌≡◌, ◌↔◌, refl, String, Option, some, List, [], ◌∷◌, Result, ok}
use kubernetes_monitor.Resources as Resources
use kubernetes_monitor.Resources.{
  HealthStatusCode, ApplicationInstanceChanges, get_all_resource_count,
}
use kubernetes_monitor.Resources.Sync as Sync
use kubernetes_monitor.Protos.Messages.{
  SyncStatusCode, SyncStatus, PresentMonitoredResource, ReplaceMonitoredResourcesRequest,
  UpdateMonitoredResourcesRequest, DeleteChildMonitoredResourcesRequest,
}
use kubernetes_monitor.Protos.{to_sync_status}
use kubernetes_monitor.Protos.Requests.{present_message, to_present_monitored_resource}
use kubernetes_monitor.Protos.Updates.{
  to_replace_monitored_resource_request, to_update_monitored_resource_request,
}
use kubernetes_monitor.Protos.Present.{
  IsSendable, read_present, read_present-to_present, to_present_monitored_resource_iff,
}
use kubernetes_monitor.Protos.Totals.{IsReportable}
use kubernetes_monitor.Protos.Sent.{
  Accounts, AccountsUpdate, Deletes, to_replace-Accounts, to_update-Accounts,
}

abbrev marshal : String → Result String String
marshal m = ok m

abbrev unmarshal : String → Option String
unmarshal text = some text

abbrev deployed : Resources.PresentMonitoredResource String
deployed = record {
  cluster_id = "machine";
  resource_id = "uid-1";
  desired_resource_id = "desired-1";
  status = some (record { status = HealthStatusCode.healthy; message = "" });
  manifest = some "kind: Deployment";
  sync_status = record { status = Sync.SyncStatusCode.orphaned; message = ""; json_patch = "" };
  group_version_kind = record { group = "apps"; version = "v1"; kind = "Deployment" };
  name = "web";
  namespace = "shop";
  resource_version = "7";
}

-- One that the cluster gave no id.
abbrev nameless : Resources.PresentMonitoredResource String
nameless = record deployed { resource_id = "" }

abbrev pod : Resources.ChildMonitoredResource String
pod = record {
  cluster_id = "machine";
  owner_id = "uid-2";
  resource_id = "uid-3";
  root_owner_id = "uid-1";
  status = some (record { status = HealthStatusCode.healthy; message = "" });
  manifest = some "kind: Pod";
  group_version_kind = record { group = ""; version = "v1"; kind = "Pod" };
  name = "web-1";
  namespace = "shop";
  resource_version = "7";
}

abbrev changes : ApplicationInstanceChanges String
changes = record {
  application_instance_id = "shop";
  cluster_id = "machine";
  present_monitored_resources = deployed ∷ nameless ∷ [];
  child_monitored_resources = pod ∷ [];
  missing_monitored_resources = [];
  unknown_monitored_resources = [];
  deleted_child_resource_keys =
      record { group = ""; kind = "Pod"; namespace = "shop"; name = "web-0" } ∷ [];
}

abbrev sent_status : SyncStatus
sent_status = record {
  sync_status_code = SyncStatusCode.not_applicable;
  sync_status_code_v2 = SyncStatusCode.orphaned;
  message = "";
  json_patch = "";
}

abbrev sent : PresentMonitoredResource
sent = present_message deployed "kind: Deployment" sent_status

read_present-to_present_example :
    read_present marshal unmarshal sent ≡ record deployed { resource_version = "" }
unfolding to_present_monitored_resource to_sync_status
read_present-to_present_example =
    read_present-to_present marshal unmarshal deployed sent (λ m text e. cc) (λ text e. cc) refl

to_present_monitored_resource_iff_example :
    ((message : PresentMonitoredResource) × (to_present_monitored_resource marshal deployed
        ≡ some (ok message)))
    ↔ IsSendable marshal deployed
to_present_monitored_resource_iff_example =
    to_present_monitored_resource_iff marshal deployed (λ text e. cc)

changes-IsReportable : IsReportable changes
changes-IsReportable = record {
  present = (λ text e. cc, (λ text e. cc, tt));
  missing = tt;
  unknown = tt;
}

to_replace-Accounts_example :
    (request : ReplaceMonitoredResourcesRequest) × (errors : List String)
    × (to_replace_monitored_resource_request marshal changes ≡ some (request, errors))
    × Accounts marshal changes request errors
to_replace-Accounts_example = to_replace-Accounts marshal changes changes-IsReportable

to_update-Accounts_example :
    (request : Option UpdateMonitoredResourcesRequest) × (deletion : Option
      DeleteChildMonitoredResourcesRequest)
    × (errors : List String) × (to_update_monitored_resource_request marshal changes
        ≡ some (request, (deletion, errors)))
    × AccountsUpdate marshal changes request errors
    × Deletes changes deletion
to_update-Accounts_example = to_update-Accounts marshal changes changes-IsReportable
