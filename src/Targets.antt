-- ===== src/Targets.antt =====
-- The operations of `Cluster` in internal/cluster/cluster.go, one target of the monitor, and the
-- mailbox of internal/cluster/mailbox.go through which they reach its state. The owner of the state runs
-- one operation at a time, to its end; what a call meets is whether it is accepted (`none`), or with
-- what error it is refused. An operation gives the state and what it passes to the updater, in order,
-- beside the call's error. `none` is a panic or a recursion that never ends.
pub mod Kept
pub mod Filed
pub mod Outcomes
use kubernetes_monitor.Prelude.{
  ℕ, String, Bool, Option, none, some, List, [], ◌∷◌, map, Result, ok, failed,
}
use kubernetes_monitor.Prelude.Maps.{Map}
use kubernetes_monitor.Resources.{
  Kubernetes, ResourceKey, TypeMeta, DesiredResource, CacheResource, ApplicationInstanceChanges,
}
use kubernetes_monitor.Snapshot.{SharedCluster}
use kubernetes_monitor.ClusterState.{ClusterState, Target, merge_desired, replace_desired}
use kubernetes_monitor.ClusterState.Sweep.{
  delete_desired, delete_desired_except_for_version, monitored_resource_updates,
  apply_resource_change,
}

-- `MonitoredResourcesUpdater`
pub data Outgoing (M : Type 0) : Type 0 where
  update : ApplicationInstanceChanges M → Outgoing M
  replace : ApplicationInstanceChanges M → Outgoing M

abbrev pub changes_of : {M : Type 0} → Outgoing M → ApplicationInstanceChanges M
changes_of (update c) = c
changes_of (replace c) = c

-- What an operation on a state leaves.
abbrev pub Effect : Type 0 → Type 0 → Type 0
Effect M S = Option (S × (List (Outgoing M) × Option String))

-- `call`: the operation, if the owner accepts it.
unfoldable pub call : {M S : Type 0} → Option String → S → Effect M S → Effect M S
call none s effect = effect
call (some refusal) s effect = some (s, ([], some refusal))

-- `ask`, for a value
unfoldable pub ask :
    {A S : Type 0} → Option String → S → Option (S × A) → Option (S × Result String A)
ask (some refusal) s answer = some (s, failed refusal)
ask none s none = none
ask none s (some (s', a)) = some (s', ok a)

-- `newClusterState`
unfoldable pub new_cluster_state : {M : Type 0} → String → ClusterState M
new_cluster_state cluster_id = record { cluster_id = cluster_id; application_instances = [] }

-- What a command passes on: nothing, if it fails.
unfoldable pub passed_on :
    {M S : Type 0}
    → (ApplicationInstanceChanges M → Outgoing M)
    → Option (S × Result String (ApplicationInstanceChanges M))
    → Effect M S
passed_on send none = none
passed_on send (some (s, failed e)) = some (s, ([], some e))
passed_on send (some (s, ok changes)) = some (s, (send changes ∷ [], none))

-- What `sendResourceChangeUpdates` passes on.
unfoldable pub send_resource_change_updates :
    {M S : Type 0} → Option (S × List (ApplicationInstanceChanges M)) → Effect M S
send_resource_change_updates none = none
send_resource_change_updates (some (s, updates)) = some (s, (map update updates, none))

module _ (k : Kubernetes) (default_api_resources : Map TypeMeta Bool) {C : Type 0} (stopped : Bool)
    (refused : Option String) where
  open k use {Manifest}

  unfoldable pub delete_desired_resources_except_for_version :
      String → String → Target Manifest C → Effect Manifest (Target Manifest C)
  unfolding call
  delete_desired_resources_except_for_version id version_to_keep t = call refused t (
      some (
        delete_desired_except_for_version k default_api_resources stopped id version_to_keep t,
        ([], none),
      ))

  unfoldable pub delete_desired_resources :
      String → List String → Target Manifest C → Effect Manifest (Target Manifest C)
  unfolding call
  delete_desired_resources id resource_ids t =
      call refused t
        (some (delete_desired k default_api_resources stopped id resource_ids t, ([], none)))

  -- An empty delta does nothing.
  unfoldable pub merge_desired_resources :
      (ℕ → SharedCluster Manifest)
      → String
      → Map ResourceKey (DesiredResource Manifest)
      → String
      → Target Manifest C
      → Effect Manifest (Target Manifest C)
  unfolding call passed_on
  merge_desired_resources clusters id [] hash_salt t = some (t, ([], none))
  merge_desired_resources clusters id (entry ∷ desired) hash_salt t = call refused t (
      passed_on update
        (merge_desired k default_api_resources stopped clusters id (entry ∷ desired) hash_salt t))

  unfoldable pub replace_desired_resources :
      (ℕ → SharedCluster Manifest)
      → String
      → Map ResourceKey (DesiredResource Manifest)
      → String
      → Target Manifest C
      → Effect Manifest (Target Manifest C)
  unfolding call passed_on
  replace_desired_resources clusters id desired hash_salt t = call refused t (
      passed_on replace
        (replace_desired k default_api_resources stopped clusters id desired hash_salt t))

  unfoldable pub application_instance_updates :
      SharedCluster Manifest
      → Target Manifest C
      → Option (Target Manifest C × Result String (List (ApplicationInstanceChanges Manifest)))
  unfolding ask
  application_instance_updates c t =
      ask refused t (monitored_resource_updates k default_api_resources stopped c t)

module _ (k : Kubernetes) (default_api_resources : Map TypeMeta Bool) {C : Type 0}
    (stopped : Bool) where
  open k use {Manifest}

  -- The case of `run` for a change of a resource.
  unfoldable pub run_change :
      SharedCluster Manifest
      → Option (CacheResource Manifest)
      → Option (CacheResource Manifest)
      → Target Manifest C
      → Effect Manifest (Target Manifest C)
  unfolding send_resource_change_updates
  run_change c new_res old_res t =
      send_resource_change_updates
        (apply_resource_change k default_api_resources stopped c new_res old_res t)
