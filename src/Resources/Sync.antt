-- ===== src/Resources/Sync.antt =====
-- internal/cluster/sync_status.go and `getSyncStatus` of internal/cluster/cluster.go: how a live
-- manifest compares with the one that Octopus deployed.
use kubernetes_monitor.Prelude.{String, Option, none, some, ok, failed, if◌then◌else◌}
use kubernetes_monitor.Resources.Libraries.{Kubernetes}
use kubernetes_monitor.Resources.Desired.{DesiredResource, is_orphaned}

-- A string type with these constants; any other text is `unrecognised`.
pub data SyncStatusCode : Type 0 where
  unknown not_applicable in_sync out_of_sync orphaned : SyncStatusCode
  unrecognised : String → SyncStatusCode

pub record SyncStatus : Type 0 where
  pub status : SyncStatusCode
  pub message : String
  pub json_patch : String

unfoldable pub new_sync_status :
    {M : Type 0} → DesiredResource M → SyncStatusCode → String → String → SyncStatus
unfolding is_orphaned
new_sync_status desired_resource status message json_patch =
    if is_orphaned desired_resource
    then record { status = orphaned; message = message; json_patch = "" }
    else record { status = status; message = message; json_patch = json_patch }

-- `SyncStatus{Status: SyncStatusUnknown, Message: message}`
abbrev sync_unknown : String → SyncStatus
sync_unknown message = record { status = unknown; message = message; json_patch = "" }

module _ (k : Kubernetes) where
  open k use {Manifest, diff, json_patch}

  -- The outcome of the comparison itself, behind the guards of `getSyncStatus`.
  unfoldable pub compare_manifests : Manifest → Manifest → SyncStatus
  compare_manifests desired live = elim (diff desired live) [
    | failed e ↦ sync_unknown e
    | ok result ↦
        if result.modified
        then elim (json_patch result.normalized_live result.predicted_live) [
          | failed e ↦ sync_unknown e
          | ok patch ↦ record { status = out_of_sync; message = ""; json_patch = patch }
        ]
        else record { status = in_sync; message = ""; json_patch = "" }
  ]

  unfoldable pub get_sync_status : Option Manifest → DesiredResource Manifest → SyncStatus
  unfolding compare_manifests new_sync_status
  get_sync_status manifest desired_resource =
      if is_orphaned desired_resource
      then new_sync_status desired_resource orphaned "" ""
      else elim manifest [
        | none ↦ sync_unknown "Missing resource manifest"
        | some live ↦ elim desired_resource.manifest [
          | none ↦ sync_unknown "Missing desired resource manifest"
          | some desired ↦ compare_manifests desired live
        ]
      ]
