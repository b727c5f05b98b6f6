-- ===== src/ClusterState/Sweep.antt =====
-- The operations of internal/cluster/cluster_state.go besides the two that take desired resources: the
-- deletions, the sweep, and the effect of a cache event.
use kubernetes_monitor.Prelude.{
  String, Bool, Option, none, some, List, [], ◌∷◌, ◌++◌, Result, ok, failed, ◌>>=◌, string_eq,
}
use kubernetes_monitor.Prelude.Maps.{Map, lookup, insert}
use kubernetes_monitor.Resources.{Kubernetes, TypeMeta, CacheResource, ApplicationInstanceChanges}
use kubernetes_monitor.Instance.{
  ApplicationInstance, monitored_resource_changes, delete_desired_resources,
  delete_desired_resources_except_for_version, get_changes_for_updated_resource,
}
use kubernetes_monitor.Snapshot.{SharedCluster, manifest_of}
use kubernetes_monitor.ClusterState.{Target, replace_from_cluster, publish_interests}

-- The instances that a loop leaves, in order, and the changes that it collects.
pub record Swept (M : Type 0) : Type 0 where
  pub instances : Map String (ApplicationInstance M)
  pub updates : List (ApplicationInstanceChanges M)

abbrev pub with_instances :
    {M C : Type 0} → Map String (ApplicationInstance M) → Target M C → Target M C
with_instances instances t = record t {
  state = record (t.state) { application_instances = instances };
}

abbrev pub before :
    {M : Type 0}
    → String
    → ApplicationInstance M
    → List (ApplicationInstanceChanges M)
    → Swept M
    → Swept M
before id a updates s = record { instances = (id, a) ∷ s.instances; updates = updates ++ s.updates }

module _ (k : Kubernetes) (default_api_resources : Map TypeMeta Bool) {C : Type 0}
    (stopped : Bool) where
  open k use {Manifest}

  -- Both deletions: an unknown instance is left alone.
  unfoldable pub delete_from :
      (ApplicationInstance Manifest → ApplicationInstance Manifest)
      → String
      → Target Manifest C
      → Target Manifest C
  delete_from edit id t = elim (lookup id t.state.application_instances) [
    | none ↦ t
    | some a ↦
        publish_interests k default_api_resources stopped
          (with_instances (insert id (edit a) t.state.application_instances) t)
  ]

  unfoldable pub delete_desired_except_for_version :
      String → String → Target Manifest C → Target Manifest C
  unfolding delete_from
  delete_desired_except_for_version id version_to_keep t =
      delete_from (delete_desired_resources_except_for_version version_to_keep) id t

  unfoldable pub delete_desired : String → List String → Target Manifest C → Target Manifest C
  unfolding delete_from
  delete_desired id resource_ids t = delete_from (delete_desired_resources resource_ids) id t

module _ (k : Kubernetes) (default_api_resources : Map TypeMeta Bool) where
  open k use {Manifest}

  -- What one instance adds to the sweep: nothing, if its snapshot fails.
  unfoldable pub sweep_update :
      String
      → ApplicationInstance Manifest
      → Option String
      → List (ApplicationInstanceChanges Manifest)
  sweep_update cluster_id a (some e) = []
  sweep_update cluster_id a none = monitored_resource_changes cluster_id a ∷ []

  unfoldable pub sweep :
      SharedCluster Manifest
      → String
      → Map String (ApplicationInstance Manifest)
      → Option (Swept Manifest)
  unfolding replace_from_cluster sweep_update
  sweep c cluster_id [] = some (record { instances = []; updates = [] })
  sweep c cluster_id ((id, a) ∷ instances) = do
    (a', err) ← replace_from_cluster k default_api_resources c cluster_id a
    rest ← sweep c cluster_id instances
    some (before id a' (sweep_update cluster_id a' err) rest)

  -- What one instance adds for an event: an error is collected and logged.
  unfoldable pub event_update :
      Result String (Option (ApplicationInstanceChanges Manifest))
      → List (ApplicationInstanceChanges Manifest)
  event_update (failed e) = []
  event_update (ok none) = []
  event_update (ok (some update)) = update ∷ []

  unfoldable pub changes_for_updated_resource :
      SharedCluster Manifest
      → String
      → Option (CacheResource Manifest)
      → Option (CacheResource Manifest)
      → Map String (ApplicationInstance Manifest)
      → Option (Swept Manifest)
  unfolding event_update manifest_of
  changes_for_updated_resource c cluster_id new_res old_res [] =
      some (record { instances = []; updates = [] })
  changes_for_updated_resource c cluster_id new_res old_res ((id, a) ∷ instances) = do
    (a', r) ←
        get_changes_for_updated_resource k cluster_id (some (manifest_of k c)) new_res old_res a
    rest ← changes_for_updated_resource c cluster_id new_res old_res instances
    some (before id a' (event_update r) rest)

module _ (k : Kubernetes) (default_api_resources : Map TypeMeta Bool) {C : Type 0}
    (stopped : Bool) where
  open k use {Manifest}

  unfoldable pub monitored_resource_updates :
      SharedCluster Manifest
      → Target Manifest C
      → Option (Target Manifest C × List (ApplicationInstanceChanges Manifest))
  unfolding sweep
  monitored_resource_updates c t = do
    swept ← sweep k default_api_resources c t.state.cluster_id t.state.application_instances
    some (
      publish_interests k default_api_resources stopped (with_instances swept.instances t),
      swept.updates,
    )

  -- Publishing follows only where there is something to send.
  unfoldable pub publish_if_any :
      List (ApplicationInstanceChanges Manifest) → Target Manifest C → Target Manifest C
  publish_if_any [] t = t
  publish_if_any (update ∷ updates) t = publish_interests k default_api_resources stopped t

  unfoldable pub apply_resource_change :
      SharedCluster Manifest
      → Option (CacheResource Manifest)
      → Option (CacheResource Manifest)
      → Target Manifest C
      → Option (Target Manifest C × List (ApplicationInstanceChanges Manifest))
  unfolding changes_for_updated_resource publish_if_any
  apply_resource_change c new_res old_res t = do
    swept ←
        changes_for_updated_resource k default_api_resources c t.state.cluster_id new_res old_res
          t.state.application_instances
    some (publish_if_any swept.updates (with_instances swept.instances t), swept.updates)
