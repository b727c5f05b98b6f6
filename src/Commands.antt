-- ===== src/Commands.antt =====
-- internal/commands/desired_resources_handlers.go, and the dispatch of internal/commands/command_handler.go:
-- what a command from Octopus does to the monitor, which is its targets, their states and the interest
-- index that they share. `none` is a panic or a recursion that never ends.
pub mod Isolated
use kubernetes_monitor.Prelude.{
  ℕ, String, Bool, Option, none, some, List, [], ◌∷◌, map, Result, ok, failed, ◌>>=◌, string_eq,
}
use kubernetes_monitor.Prelude.Maps.{Map, lookup, insert}
use kubernetes_monitor.Resources.{
  Kubernetes, ResourceKey, TypeMeta, key_eq, DesiredResource, resource_key,
}
use kubernetes_monitor.Interests.{InterestIndex}
use kubernetes_monitor.Interests
use kubernetes_monitor.Snapshot.{SharedCluster}
use kubernetes_monitor.ClusterState.{ClusterState, Target}
use kubernetes_monitor.Registry.{Attempt, ClusterRegistry, Cluster, ensure, get_cluster}
use kubernetes_monitor.Targets.{Effect, new_cluster_state}
use kubernetes_monitor.Targets
use kubernetes_monitor.Protos.Messages as Messages
use kubernetes_monitor.Protos.Messages.{
  UpdateDesiredResourcesCommand, ReplaceDesiredResourcesCommand, PruneOtherVersionsCommand,
  DeleteDesiredResourcesCommand, ServerToClientStream, update_desired_resources_command,
  prune_other_versions_command, delete_desired_resources_command, replace_desired_resources_command,
  unrecognised,
}
use kubernetes_monitor.Protos.{
  application_instance_id_from_proto, cluster_id_from_proto, version_from_proto,
  desired_resource_id_from_proto,
}
use kubernetes_monitor.Protos.Commands.{
  to_cluster_desired_resource, to_cluster_desired_resource_for_version,
}

-- A target that no command has reached has a new state.
pub record Monitor (M C S : Type 0) : Type 0 where
  pub registry : ClusterRegistry S
  pub states : Map String (ClusterState M)
  pub interests : InterestIndex C

-- What a command meets: whether the mailboxes of the registry and of the target refuse it, what a
-- connection and a new target's subscription come to, and what the cluster answers, after each
-- invalidation of the discovery.
pub record Meets (M C S : Type 0) : Type 0 where
  pub registry_refuses : Option String
  pub target_refuses : Option String
  pub connect : Result String S
  pub subscribe_error : Option String
  pub changes : C
  pub clusters : ℕ → SharedCluster M

-- The first target that arrives under an id subscribes to the changes.
unfoldable pub subscribed :
    {C S : Type 0}
    → String
    → C
    → Option (Cluster S)
    → Result String (Cluster S)
    → InterestIndex C
    → InterestIndex C
subscribed id changes (some known) r x = x
subscribed id changes none (failed e) x = x
subscribed id changes none (ok cluster) x = Interests.subscribe id changes x

unfoldable pub state_of : {M : Type 0} → String → Map String (ClusterState M) → ClusterState M
unfolding new_cluster_state
state_of id states = elim (lookup id states) [ none ↦ new_cluster_state id | some s ↦ s ]

module _ {M C S : Type 0} where
  unfoldable pub target_of : String → Monitor M C S → Target M C
  unfolding state_of
  target_of id m = record { state = state_of id m.states; interests = m.interests }

  -- The monitor with a target's state and the interests put back.
  unfoldable pub put_target : String → Monitor M C S → Target M C → Monitor M C S
  put_target id m t = record m { states = insert id t.state m.states; interests = t.interests }

  unfoldable pub put_back :
      String → Monitor M C S → Effect M (Target M C) → Effect M (Monitor M C S)
  unfolding put_target
  put_back id m none = none
  put_back id m (some (t, outcome)) = some (put_target id m t, outcome)

  -- `EnsureCluster`: the monitor, and the error.
  unfoldable pub ensure_cluster :
      Meets M C S → String → Monitor M C S → Monitor M C S × Option String
  unfolding subscribed
  ensure_cluster meets id m = elim meets.registry_refuses [
    | some refusal ↦ (m, some refusal)
    | none ↦
        let attempt : Attempt S = record {
          id = id;
          connect = meets.connect;
          subscribe_error = meets.subscribe_error;
        } in
        let (registry, r) = ensure attempt m.registry in
        (
          record m {
            registry = registry;
            interests = subscribed id meets.changes (lookup id m.registry.clusters) r m.interests;
          },
          elim r [ failed e ↦ some e | ok cluster ↦ none ],
        )
  ]

  -- `GetCluster`: the error.
  unfoldable pub get_cluster_error : Meets M C S → String → Monitor M C S → Option String
  get_cluster_error meets id m = elim meets.registry_refuses [
    | some refusal ↦ some refusal
    | none ↦ elim (get_cluster id m.registry) [ failed e ↦ some e | ok cluster ↦ none ]
  ]

  -- An operation on a target, if the target was found.
  unfoldable pub on_target :
      String
      → Option String
      → Monitor M C S
      → (Target M C → Effect M (Target M C))
      → Effect M (Monitor M C S)
  unfolding put_back target_of
  on_target id (some e) m operation = some (m, ([], some e))
  on_target id none m operation = put_back id m (operation (target_of id m))

module _ (k : Kubernetes) where
  open k use {Manifest}

  -- The loops that key the desired resources of a command.
  unfoldable pub keyed :
      (Messages.DesiredResource → Option (DesiredResource Manifest))
      → List Messages.DesiredResource
      → Map ResourceKey (DesiredResource Manifest)
      → Option (Map ResourceKey (DesiredResource Manifest))
  keyed convert [] desired = some desired
  keyed convert (v ∷ vs) desired = elim (convert v) [
    | none ↦ none
    | some d ↦ keyed convert vs (insert (resource_key k d) d desired)
  ]

  -- An operation on the keyed resources, if the target was found; a panic comes first otherwise.
  unfoldable pub with_desired :
      {S : Type 0}
      → Option (Map ResourceKey (DesiredResource Manifest))
      → (Map ResourceKey (DesiredResource Manifest) → Effect Manifest S)
      → Effect Manifest S
  with_desired none operation = none
  with_desired (some desired) operation = operation desired

module _ (k : Kubernetes) (default_api_resources : Map TypeMeta Bool)
    (unmarshal : String → Result String k.Manifest) {C S : Type 0} (stopped : Bool)
    (meets : Meets k.Manifest C S) where
  open k use {Manifest}

  unfoldable pub handle_update_desired_resources_command :
      UpdateDesiredResourcesCommand → Monitor Manifest C S → Effect Manifest (Monitor Manifest C S)
  unfolding ensure_cluster on_target with_desired keyed
  handle_update_desired_resources_command command m =
      let id = cluster_id_from_proto command.cluster_id in
      let (m', err) = ensure_cluster meets id m in
      on_target id err m' λ t.
        with_desired k
          (keyed k (to_cluster_desired_resource_for_version unmarshal command.version)
            command.desired_resources [])
          λ desired.
            Targets.merge_desired_resources k default_api_resources stopped meets.target_refuses
              meets.clusters (application_instance_id_from_proto command.application_instance_id)
              desired command.hash_salt t

  unfoldable pub handle_replace_desired_resources_command :
      ReplaceDesiredResourcesCommand → Monitor Manifest C S → Effect Manifest (Monitor Manifest C S)
  unfolding ensure_cluster on_target with_desired keyed
  handle_replace_desired_resources_command command m =
      let id = cluster_id_from_proto command.cluster_id in
      let (m', err) = ensure_cluster meets id m in
      on_target id err m' λ t.
        with_desired k
          (keyed k (to_cluster_desired_resource unmarshal) command.desired_resources [])
          λ desired.
            Targets.replace_desired_resources k default_api_resources stopped meets.target_refuses
              meets.clusters (application_instance_id_from_proto command.application_instance_id)
              desired command.hash_salt t

  unfoldable pub handle_prune_other_versions_command :
      PruneOtherVersionsCommand → Monitor Manifest C S → Effect Manifest (Monitor Manifest C S)
  unfolding get_cluster_error on_target
  handle_prune_other_versions_command command m =
      let id = cluster_id_from_proto command.cluster_id in
      on_target id (get_cluster_error meets id m) m λ t.
        Targets.delete_desired_resources_except_for_version k default_api_resources stopped
          meets.target_refuses (application_instance_id_from_proto command.application_instance_id)
          (version_from_proto command.version) t

  unfoldable pub handle_delete_desired_resources_command :
      DeleteDesiredResourcesCommand → Monitor Manifest C S → Effect Manifest (Monitor Manifest C S)
  unfolding get_cluster_error on_target
  handle_delete_desired_resources_command command m =
      let id = cluster_id_from_proto command.cluster_id in
      on_target id (get_cluster_error meets id m) m λ t.
        Targets.delete_desired_resources k default_api_resources stopped meets.target_refuses
          (application_instance_id_from_proto command.application_instance_id)
          (map desired_resource_id_from_proto command.resource_ids) t

  -- `handle`
  unfoldable pub handle :
      ServerToClientStream → Monitor Manifest C S → Effect Manifest (Monitor Manifest C S)
  unfolding handle_update_desired_resources_command handle_replace_desired_resources_command
      handle_prune_other_versions_command handle_delete_desired_resources_command
  handle (update_desired_resources_command command) m =
      handle_update_desired_resources_command command m
  handle (prune_other_versions_command command) m = handle_prune_other_versions_command command m
  handle (delete_desired_resources_command command) m =
      handle_delete_desired_resources_command command m
  handle (replace_desired_resources_command command) m =
      handle_replace_desired_resources_command command m
  handle unrecognised m = some (m, ([], none))
