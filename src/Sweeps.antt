-- ===== src/Sweeps.antt =====
-- The sweep over all targets (`ApplicationInstanceUpdates` of internal/cluster/cluster_list.go), and the
-- tick that sends what it finds (internal/watcher/resource_monitor_loop.go). `none` is a panic or a recursion
-- that never ends.
pub mod Answered
use kubernetes_monitor.Prelude.{
  String, Bool, Option, none, some, List, [], ◌∷◌, ◌++◌, Result, ok, failed, ◌>>=◌,
}
use kubernetes_monitor.Prelude.Maps.{Map, keys}
use kubernetes_monitor.Resources.{Kubernetes, TypeMeta, ApplicationInstanceChanges}
use kubernetes_monitor.Snapshot.{SharedCluster}
use kubernetes_monitor.Targets
use kubernetes_monitor.Commands.{Monitor, target_of, put_target}
use kubernetes_monitor.Protos.Messages.{ReplaceMonitoredResourcesRequest}
use kubernetes_monitor.Protos.Updates.{to_replace_monitored_resource_request}

-- What a sweep meets: whether the mailbox of the registry refuses it, or that of a target, whether the
-- cache synchronises, and what the cluster answers then.
pub record Sweep (M : Type 0) : Type 0 where
  pub registry_refuses : Option String
  pub target_refuses : String → Option String
  pub sync_error : Option String
  pub cluster : SharedCluster M

-- A target that fails is skipped.
unfoldable pub or_skipped : {A : Type 0} → Result String (List A) → List A
or_skipped (failed e) = []
or_skipped (ok updates) = updates

module _ (k : Kubernetes) (default_api_resources : Map TypeMeta Bool) {C S : Type 0}
    (stopped : Bool) (met : Sweep k.Manifest) where
  open k use {Manifest}

  -- The loop over the targets.
  unfoldable pub sweep_targets :
      List String
      → Monitor Manifest C S
      → Option (Monitor Manifest C S × List (ApplicationInstanceChanges Manifest))
  unfolding or_skipped
  sweep_targets [] m = some (m, [])
  sweep_targets (id ∷ ids) m = do
    (t, updates) ←
        Targets.application_instance_updates k default_api_resources stopped (met.target_refuses id)
          met.cluster (target_of id m)
    (m', rest) ← sweep_targets ids (put_target id m t)
    some (m', or_skipped updates ++ rest)

  -- `ApplicationInstanceUpdates`, whose consumer takes every update.
  unfoldable pub application_instance_updates :
      Monitor Manifest C S
      → Option (Monitor Manifest C S × List (ApplicationInstanceChanges Manifest))
  unfolding sweep_targets
  application_instance_updates m = elim met.registry_refuses [
    | some refusal ↦ some (m, [])
    | none ↦ elim m.registry.shared [
      | none ↦ some (m, [])
      | some shared ↦ elim met.sync_error [
        | some e ↦ some (m, [])
        | none ↦ sweep_targets (keys m.registry.clusters) m
      ]
    ]
  ]

-- The loop's body, for each update: the request that is sent, and the errors that are logged.
unfoldable pub replacements :
    {M : Type 0}
    → (M → Result String String)
    → List (ApplicationInstanceChanges M)
    → Option (List (ReplaceMonitoredResourcesRequest × List String))
replacements marshal [] = some []
replacements marshal (update ∷ updates) = do
  request ← to_replace_monitored_resource_request marshal update
  rest ← replacements marshal updates
  some (request ∷ rest)

module _ (k : Kubernetes) (default_api_resources : Map TypeMeta Bool) {C S : Type 0}
    (stopped : Bool) (met : Sweep k.Manifest) (marshal : k.Manifest → Result String String) where
  open k use {Manifest}

  -- `UpdateMonitoredResources`: the monitor, and what is sent and logged.
  unfoldable pub update_monitored_resources :
      Monitor Manifest C S
      → Option (Monitor Manifest C S × List (ReplaceMonitoredResourcesRequest × List String))
  unfolding application_instance_updates replacements
  update_monitored_resources m = do
    (m', updates) ← application_instance_updates k default_api_resources stopped met m
    requests ← replacements marshal updates
    some (m', requests)
