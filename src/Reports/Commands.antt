-- ===== src/Reports/Commands.antt =====
-- The reports of the commands (internal/commands/desired_resources_handlers.go).
use kubernetes_monitor.Prelude.{String, Bool, Option, none, some, [], Result, string_eq}
use kubernetes_monitor.Prelude.Maps.{Map}
use kubernetes_monitor.Resources.{Kubernetes, ResourceKey, TypeMeta, DesiredResource}
use kubernetes_monitor.ClusterState.{Target}
use kubernetes_monitor.Targets.{Outgoing, update, replace, Effect, changes_of, call, passed_on}
use kubernetes_monitor.Targets
use kubernetes_monitor.Reports.Replies.{SendsKnown}
use kubernetes_monitor.Protos.Messages.{
  ServerToClientStream, update_desired_resources_command, prune_other_versions_command,
  delete_desired_resources_command, replace_desired_resources_command, unrecognised,
}
use kubernetes_monitor.Protos.{cluster_id_from_proto}
use kubernetes_monitor.Protos.Commands.{
  to_cluster_desired_resource, to_cluster_desired_resource_for_version,
}
use kubernetes_monitor.Commands.{
  Monitor, Meets, put_back, target_of, on_target, with_desired, keyed, handle, ensure_cluster,
  handle_update_desired_resources_command, handle_replace_desired_resources_command,
  handle_prune_other_versions_command, handle_delete_desired_resources_command,
}
use kubernetes_monitor.Reports.Rescans.{
  silent-Known, call-Known, merge_desired_resources-Known, replace_desired_resources-Known,
}

module _ {M C S : Type 0} where
  put_back-Known :
      (id : String) (m : Monitor M C S) (effect : Effect M (Target M C))
      → SendsKnown effect
      → SendsKnown (put_back id m effect)
  unfolding put_back SendsKnown
  put_back-Known id m none h = tt
  put_back-Known id m (some (t, outcome)) h = h

  on_target-Known :
      (id : String) (err : Option String) (m : Monitor M C S)
      (operation : Target M C → Effect M (Target M C))
      → ((t : Target M C) → SendsKnown (operation t))
      → SendsKnown (on_target id err m operation)
  unfolding on_target SendsKnown
  on_target-Known id (some e) m operation h = tt
  on_target-Known id none m operation h =
      put_back-Known id m (operation (target_of id m)) (h (target_of id m))

module _ (k : Kubernetes) where
  open k use {Manifest}

  with_desired-Known :
      {S : Type 0} (desired : Option (Map ResourceKey (DesiredResource Manifest)))
      (operation : Map ResourceKey (DesiredResource Manifest) → Effect Manifest S)
      → ((d : Map ResourceKey (DesiredResource Manifest)) → SendsKnown (operation d))
      → SendsKnown (with_desired k desired operation)
  unfolding with_desired SendsKnown
  with_desired-Known none operation h = tt
  with_desired-Known (some d) operation h = h d

module _ (k : Kubernetes) (default_api_resources : Map TypeMeta Bool)
    (unmarshal : String → Result String k.Manifest) {C S : Type 0} (stopped : Bool)
    (meets : Meets k.Manifest C S) where
  open k use {Manifest}

  ensured-Known :
      (cluster_id : String) (m : Monitor Manifest C S)
      (operation : Target Manifest C → Effect Manifest (Target Manifest C))
      → ((t : Target Manifest C) → SendsKnown (operation t))
      → let (m', err) = ensure_cluster meets cluster_id m in
        SendsKnown (on_target cluster_id err m' operation)
  ensured-Known cluster_id m operation h =
      let (m', err) = ensure_cluster meets cluster_id m in
      on_target-Known cluster_id err m' operation h

  -- Each report that a command passes on.
  pub handle-Known :
      (message : ServerToClientStream) (m : Monitor Manifest C S)
      → SendsKnown (handle k default_api_resources unmarshal stopped meets message m)
  unfolding handle handle_update_desired_resources_command handle_replace_desired_resources_command
      handle_prune_other_versions_command handle_delete_desired_resources_command
      Targets.delete_desired_resources_except_for_version Targets.delete_desired_resources
  handle-Known (update_desired_resources_command command) m =
      ensured-Known (cluster_id_from_proto command.cluster_id) m _ λ t.
        with_desired-Known k
          (keyed k (to_cluster_desired_resource_for_version unmarshal command.version)
            command.desired_resources [])
          _
          λ d.
            merge_desired_resources-Known k default_api_resources stopped meets.target_refuses
              meets.clusters _ d command.hash_salt t
  handle-Known (replace_desired_resources_command command) m =
      ensured-Known (cluster_id_from_proto command.cluster_id) m _ λ t.
        with_desired-Known k
          (keyed k (to_cluster_desired_resource unmarshal) command.desired_resources []) _
          λ d.
            replace_desired_resources-Known k default_api_resources stopped meets.target_refuses
              meets.clusters _ d command.hash_salt t
  handle-Known (prune_other_versions_command command) m =
      on_target-Known _ _ m _
        λ t. call-Known meets.target_refuses t _ (silent-Known Manifest _ none)
  handle-Known (delete_desired_resources_command command) m =
      on_target-Known _ _ m _
        λ t. call-Known meets.target_refuses t _ (silent-Known Manifest _ none)
  handle-Known unrecognised m = silent-Known Manifest m none
