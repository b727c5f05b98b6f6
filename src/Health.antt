-- ===== src/Health.antt =====
-- internal/health: the health that the monitor reports for a manifest. The engine's own checks are a
-- parameter; the override that the program hands it is modelled.
pub mod Degraded
use kubernetes_monitor.Prelude.{
  ℕ, String, Bool, false, not, Option, none, some, Result, ok, failed, ◌&&◌, leb, ◌==◌, nat_eq,
  string_eq, if◌then◌else◌,
}
use kubernetes_monitor.Resources.Libraries.{
  Kubernetes, GroupVersionKind, HealthStatus, unknown, degraded, Deployment, ReplicaSet, gvk_eq,
}

-- `Spec.Replicas != nil && *Spec.Replicas != 0 && Status.ReadyReplicas == 0`
unfoldable pub wants_replicas_and_has_none : Option ℕ → ℕ → Bool
wants_replicas_and_has_none none ready = false
wants_replicas_and_has_none (some n) ready = not (n == 0) && ready == 0

unfoldable pub get_apps_v1_deployment_health : Deployment → Result String (Option HealthStatus)
unfolding wants_replicas_and_has_none
get_apps_v1_deployment_health d =
    if d.paused
    then ok none
    else if leb d.generation d.observed_generation
        && wants_replicas_and_has_none d.replicas d.ready_replicas
    then ok (
        some (record {
          status = degraded;
          message = "No replicas are ready, assuming deployment is degraded";
        }))
    else ok none

unfoldable pub get_apps_v1_replica_set_health : ReplicaSet → Result String (Option HealthStatus)
unfolding wants_replicas_and_has_none
get_apps_v1_replica_set_health r =
    if leb r.generation r.observed_generation
      && wants_replicas_and_has_none r.replicas r.ready_replicas
    then ok (
        some (record {
          status = degraded;
          message = "No replicas are ready, assuming replicaset is degraded";
        }))
    else ok none

abbrev pub rollout_gvk : GroupVersionKind
rollout_gvk = record { group = "argoproj.io"; version = "v1alpha1"; kind = "Rollout" }

abbrev pub deployment_gvk : GroupVersionKind
deployment_gvk = record { group = "apps"; version = "v1"; kind = "Deployment" }

abbrev pub replica_set_gvk : GroupVersionKind
replica_set_gvk = record { group = "apps"; version = "v1"; kind = "ReplicaSet" }

module _ (k : Kubernetes) where
  open k use {
    Manifest, manifest_gvk, engine_health, to_deployment, to_replica_set, health_script,
    execute_health_lua,
  }

  -- The case of an Argo Rollout.
  unfoldable pub rollout_health : Manifest → Result String (Option HealthStatus)
  rollout_health obj = elim (health_script obj) [
    | failed e ↦ failed e
    | ok (script, use_open_libs) ↦
        if script == "" then ok none else execute_health_lua obj (script, use_open_libs)
  ]

  -- `fmt.Errorf` wraps the message of a failed conversion; the text in front is left out.
  unfoldable pub get_resource_health : Manifest → Result String (Option HealthStatus)
  unfolding rollout_health get_apps_v1_deployment_health get_apps_v1_replica_set_health
  get_resource_health obj =
      let gvk = manifest_gvk obj in
      if gvk == rollout_gvk
      then rollout_health obj
      else if gvk == deployment_gvk
      then elim (to_deployment obj) [
        | failed e ↦ failed e
        | ok deployment ↦ get_apps_v1_deployment_health deployment
      ]
      else if gvk == replica_set_gvk
      then elim (to_replica_set obj) [
        | failed e ↦ failed e
        | ok replica_set ↦ get_apps_v1_replica_set_health replica_set
      ]
      else ok none

  unfoldable pub get_health_status : Option Manifest → Option HealthStatus
  get_health_status none = some (record { status = unknown; message = "Missing resource manifest" })
  get_health_status (some manifest) = elim (engine_health get_resource_health manifest) [
    | failed e ↦ some (record { status = unknown; message = e })
    | ok status ↦ status
  ]
