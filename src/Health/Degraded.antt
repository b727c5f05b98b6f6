-- ===== src/Health/Degraded.antt =====
-- When the program itself calls a workload degraded (internal/health/deployments.go, replicasets.go).
use kubernetes_monitor.Prelude.{
  ◌≡◌, ◌≢◌, ◌↔◌, ℕ, ◌≤◌, true, false, Option, none, some, ok, arith, nat_eq, refl,
}
use kubernetes_monitor.Resources.Libraries.{Deployment, ReplicaSet, HealthStatus, degraded, gvk_eq}
use kubernetes_monitor.Health.{
  wants_replicas_and_has_none, get_apps_v1_deployment_health, get_apps_v1_replica_set_health,
}

-- The controller has seen the last change, wants replicas, and none is ready.
pub record HasNoneReady (generation observed_generation : ℕ) (replicas : Option ℕ) (ready : ℕ)
    : Type 0 where
  pub observed : generation ≤ observed_generation
  pub wanted : (n : ℕ) × ((replicas ≡ some n) × (n ≢ 0))
  pub none_ready : ready ≡ 0

wants_iff :
    (replicas : Option ℕ) (ready : ℕ)
    → (wants_replicas_and_has_none replicas ready ≡ true)
      ↔ (((n : ℕ) × ((replicas ≡ some n) × (n ≢ 0))) × (ready ≡ 0))
unfolding wants_replicas_and_has_none
wants_iff none ready = (λ h. cc, λ h. cc)
wants_iff (some n) ready = (
  λ h. ((n, (refl, ground arith)), ground arith),
  λ h. (let e : n ≡ h.0.0 = cc in ground (arith, e, h.0.1.1, h.1)),
)

-- The program calls a Deployment degraded exactly if it is not paused, its last change is
-- observed, it wants replicas and none is ready.
deployment_health_iff :
    (d : Deployment)
    → ((s : HealthStatus) × ((get_apps_v1_deployment_health d ≡ ok (some s))
          × (s.status ≡ degraded)))
      ↔ ((d.paused ≡ false)
          × HasNoneReady d.generation d.observed_generation d.replicas d.ready_replicas)
unfolding get_apps_v1_deployment_health
deployment_health_iff d =
    let wants = wants_iff d.replicas d.ready_replicas in
    (
      λ h.
          let w = wants.0 (ground (arith, h.1.0)) in
          (
            ground (arith, h.1.0),
            record { observed = ground (arith, h.1.0); wanted = w.0; none_ready = w.1 },
          ),
      λ h. (
        record {
          status = degraded;
          message = "No replicas are ready, assuming deployment is degraded";
        },
        (ground (arith, wants.1 (h.1.wanted, h.1.none_ready), h.1.observed, h.0), refl),
      ),
    )

-- The program calls a ReplicaSet degraded exactly if its last change is observed, it wants
-- replicas and none is ready.
replica_set_health_iff :
    (r : ReplicaSet)
    → ((s : HealthStatus) × ((get_apps_v1_replica_set_health r ≡ ok (some s))
          × (s.status ≡ degraded)))
      ↔ HasNoneReady r.generation r.observed_generation r.replicas r.ready_replicas
unfolding get_apps_v1_replica_set_health
replica_set_health_iff r =
    let wants = wants_iff r.replicas r.ready_replicas in
    (
      λ h.
          let w = wants.0 (ground (arith, h.1.0)) in
          record { observed = ground (arith, h.1.0); wanted = w.0; none_ready = w.1 },
      λ h. (
        record {
          status = degraded;
          message = "No replicas are ready, assuming replicaset is degraded";
        },
        (ground (arith, wants.1 (h.wanted, h.none_ready), h.observed), refl),
      ),
    )

-- The program calls a Deployment degraded exactly if it is not paused, its last change is observed, it
-- wants replicas and none is ready; and a ReplicaSet exactly if its last change is observed, it wants
-- replicas and none is ready.
pub degraded_iff :
    (d : Deployment) (r : ReplicaSet)
    → (((s : HealthStatus) × ((get_apps_v1_deployment_health d ≡ ok (some s))
            × (s.status ≡ degraded)))
        ↔ ((d.paused ≡ false)
            × HasNoneReady d.generation d.observed_generation d.replicas d.ready_replicas))
      × (((s : HealthStatus) × ((get_apps_v1_replica_set_health r ≡ ok (some s))
              × (s.status ≡ degraded)))
          ↔ HasNoneReady r.generation r.observed_generation r.replicas r.ready_replicas)
degraded_iff d r = (deployment_health_iff d, replica_set_health_iff r)
