-- ===== src/Protos/Codes.antt =====
-- What Octopus can read back of a status that internal/protos/type_mappers.go mapped. The readers here
-- are the inverse that the protocol's enumerations suggest, not code of the monitor.
use kubernetes_monitor.Prelude.{◌≡◌, refl, ◌≢◌, String, Option, none, some, arith}
use kubernetes_monitor.Resources.{HealthStatus, HealthStatusCode}
use kubernetes_monitor.Resources.Sync as Sync
use kubernetes_monitor.Protos.Messages.{
  ResourceStatusCode, ResourceStatus, SyncStatusCode, SyncStatus,
}
use kubernetes_monitor.Protos.{
  to_resource_status_code, to_resource_status, to_sync_status_code, map_to_v1_sync_status_code,
  sync_status_with, to_sync_status,
}

abbrev pub read_health_code : ResourceStatusCode → Option HealthStatusCode
read_health_code ResourceStatusCode.unknown = some HealthStatusCode.unknown
read_health_code ResourceStatusCode.degraded = some HealthStatusCode.degraded
read_health_code ResourceStatusCode.missing = some HealthStatusCode.missing
read_health_code ResourceStatusCode.suspended = some HealthStatusCode.suspended
read_health_code ResourceStatusCode.progressing = some HealthStatusCode.progressing
read_health_code ResourceStatusCode.healthy = some HealthStatusCode.healthy
read_health_code ResourceStatusCode.not_applicable = none
read_health_code ResourceStatusCode.unspecified = none

abbrev read_health_as : String → Option HealthStatusCode → Option HealthStatus
read_health_as message none = none
read_health_as message (some status) = some (record { status = status; message = message })

abbrev pub read_health : ResourceStatus → Option HealthStatus
read_health s = read_health_as s.message (read_health_code s.resource_status_code)

-- A status with one of the engine's six codes.
abbrev pub IsNamed : Option HealthStatus → Type 0
IsNamed none = Unit {0}
IsNamed (some s) = (text : String) → s.status ≢ HealthStatusCode.other text

read_health_code_lem :
    (c : HealthStatusCode)
    → ((text : String) → c ≢ HealthStatusCode.other text)
    → read_health_code (to_resource_status_code c) ≡ some c
unfolding to_resource_status_code
read_health_code_lem HealthStatusCode.unknown h = refl
read_health_code_lem HealthStatusCode.degraded h = refl
read_health_code_lem HealthStatusCode.missing h = refl
read_health_code_lem HealthStatusCode.suspended h = refl
read_health_code_lem HealthStatusCode.progressing h = refl
read_health_code_lem HealthStatusCode.healthy h = refl
read_health_code_lem (HealthStatusCode.other text) h = absurd (h text refl)

pub read_health-to_resource_status :
    (s : Option HealthStatus) → IsNamed s → read_health (to_resource_status s) ≡ s
unfolding to_resource_status
read_health-to_resource_status none h = refl
read_health-to_resource_status (some s) h = rw (read_health_code_lem s.status h) refl

abbrev pub read_sync_code : SyncStatusCode → Sync.SyncStatusCode
read_sync_code SyncStatusCode.unknown = Sync.SyncStatusCode.unknown
read_sync_code SyncStatusCode.in_sync = Sync.SyncStatusCode.in_sync
read_sync_code SyncStatusCode.out_of_sync = Sync.SyncStatusCode.out_of_sync
read_sync_code SyncStatusCode.not_applicable = Sync.SyncStatusCode.not_applicable
read_sync_code SyncStatusCode.orphaned = Sync.SyncStatusCode.orphaned
read_sync_code SyncStatusCode.unspecified = Sync.SyncStatusCode.unrecognised ""

abbrev pub read_sync : SyncStatus → Sync.SyncStatus
read_sync s = record {
  status = read_sync_code s.sync_status_code_v2;
  message = s.message;
  json_patch = s.json_patch;
}

read_sync_code_lem :
    (c : Sync.SyncStatusCode) (code : SyncStatusCode)
    → to_sync_status_code c ≡ some code
    → (read_sync_code code ≡ c) × (map_to_v1_sync_status_code code ≢ SyncStatusCode.orphaned)
unfolding to_sync_status_code map_to_v1_sync_status_code
read_sync_code_lem Sync.SyncStatusCode.unknown code h = ground arith
read_sync_code_lem Sync.SyncStatusCode.in_sync code h = ground arith
read_sync_code_lem Sync.SyncStatusCode.out_of_sync code h = ground arith
read_sync_code_lem Sync.SyncStatusCode.not_applicable code h = ground arith
read_sync_code_lem Sync.SyncStatusCode.orphaned code h = ground arith
read_sync_code_lem (Sync.SyncStatusCode.unrecognised s) code h = absurd (cc)

sync_status_with_lem :
    (s : Sync.SyncStatus) (o : Option SyncStatusCode) (sent : SyncStatus)
    → to_sync_status_code s.status ≡ o
    → sync_status_with s o ≡ some sent
    → (read_sync sent ≡ s) × (sent.sync_status_code ≢ SyncStatusCode.orphaned)
unfolding sync_status_with
sync_status_with_lem s none sent e h = absurd (cc)
sync_status_with_lem s (some code) sent e h = ground (arith, read_sync_code_lem s.status code e)

-- A sync status that is sent can be read back from the second code, the message and the patch; and
-- the first code, which older servers read, never says orphaned.
pub read_sync-to_sync_status :
    (s : Sync.SyncStatus) (sent : SyncStatus)
    → to_sync_status s ≡ some sent
    → (read_sync sent ≡ s) × (sent.sync_status_code ≢ SyncStatusCode.orphaned)
unfolding to_sync_status
read_sync-to_sync_status s sent h =
    sync_status_with_lem s (to_sync_status_code s.status) sent refl h

-- The codes that the monitor gives.
abbrev pub IsRecognised : Sync.SyncStatus → Type 0
IsRecognised s = (text : String) → s.status ≢ Sync.SyncStatusCode.unrecognised text

to_sync_status_code_total :
    (c : Sync.SyncStatusCode)
    → ((text : String) → c ≢ Sync.SyncStatusCode.unrecognised text)
    → (code : SyncStatusCode) × (to_sync_status_code c ≡ some code)
unfolding to_sync_status_code
to_sync_status_code_total Sync.SyncStatusCode.unknown h = (SyncStatusCode.unknown, refl)
to_sync_status_code_total Sync.SyncStatusCode.in_sync h = (SyncStatusCode.in_sync, refl)
to_sync_status_code_total Sync.SyncStatusCode.out_of_sync h = (SyncStatusCode.out_of_sync, refl)
to_sync_status_code_total Sync.SyncStatusCode.not_applicable h =
    (SyncStatusCode.not_applicable, refl)
to_sync_status_code_total Sync.SyncStatusCode.orphaned h = (SyncStatusCode.orphaned, refl)
to_sync_status_code_total (Sync.SyncStatusCode.unrecognised s) h = absurd (h s refl)

sync_status_with_total :
    (s : Sync.SyncStatus) (code : SyncStatusCode)
    → (sent : SyncStatus) × (sync_status_with s (some code) ≡ some sent)
unfolding sync_status_with
sync_status_with_total s code = (_, refl)

-- A status with a recognised code is sent, without a panic.
pub to_sync_status_total :
    (s : Sync.SyncStatus) → IsRecognised s → (sent : SyncStatus) × (to_sync_status s ≡ some sent)
unfolding to_sync_status
to_sync_status_total s h =
    let (code, e) = to_sync_status_code_total s.status h in rw e (sync_status_with_total s code)
