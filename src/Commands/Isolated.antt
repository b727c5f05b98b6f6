-- ===== src/Commands/Isolated.antt =====
-- A command (internal/commands/desired_resources_handlers.go) touches one application instance of one
-- target.
use kubernetes_monitor.Prelude.{
  ◌≡◌, refl, sym, ◌∙◌, ◌≤◌, String, Bool, false, Option, none, some, List, [], map, Result, length,
  All, arith, string_eq, ◌==◌, beq_refl, Option-cases, inl, inr, subst,
}
use kubernetes_monitor.Prelude.Maps.{Map, lookup, insert, lookup-insert}
use kubernetes_monitor.Resources.{Kubernetes, ResourceKey, TypeMeta, DesiredResource}
use kubernetes_monitor.ClusterState.{ClusterState, Target}
use kubernetes_monitor.Targets.{Outgoing, changes_of, Effect, new_cluster_state}
use kubernetes_monitor.Targets.Kept.{IsFiled, IsAbout}
use kubernetes_monitor.Targets.Outcomes.{
  Ends, delete_desired_resources_except_for_version-Ends, delete_desired_resources-Ends,
  merge_desired_resources-Ends, replace_desired_resources-Ends,
}
use kubernetes_monitor.Protos.Messages.{
  ServerToClientStream, update_desired_resources_command, prune_other_versions_command,
  delete_desired_resources_command, replace_desired_resources_command, unrecognised,
}
use kubernetes_monitor.Protos.{
  application_instance_id_from_proto, cluster_id_from_proto, version_from_proto,
  desired_resource_id_from_proto,
}
use kubernetes_monitor.Commands.{
  Monitor, Meets, state_of, target_of, put_target, put_back, ensure_cluster, get_cluster_error,
  on_target, with_desired, handle_update_desired_resources_command,
  handle_replace_desired_resources_command, handle_prune_other_versions_command,
  handle_delete_desired_resources_command, handle,
}

-- Every state is that of the target it is filed under, and its instances are filed under their ids.
abbrev pub AreFiled : {M : Type 0} → Map String (ClusterState M) → Type 0
AreFiled {M} states =
    (id : String) (s : ClusterState M) → lookup id states ≡ some s → (s.cluster_id ≡ id) × IsFiled s

-- From these states a command about an instance of a target came to this monitor.
pub record Isolates {M C S : Type 0} (cluster_id id : String) (states : Map String (ClusterState M))
    (m : Monitor M C S) (sent : List (Outgoing M)) (err : Option String) : Type 0 where
  pub other_targets : (j : String) → (cluster_id == j) ≡ false → lookup j m.states ≡ lookup j states
  pub other_instances :
      (j : String)
      → (id == j) ≡ false
      → lookup j (state_of cluster_id m.states).application_instances
        ≡ lookup j (state_of cluster_id states).application_instances
  pub about : All (λ o. IsAbout cluster_id id (changes_of o)) sent
  pub at_most_one : length sent ≤ 1
  pub none_beside_error : (e : String) → err ≡ some e → sent ≡ []
  pub filed : AreFiled m.states

abbrev pub Handled :
    {M C S : Type 0}
    → String
    → String
    → Map String (ClusterState M)
    → Effect M (Monitor M C S)
    → Type 0
Handled cluster_id id states none = Unit {0}
Handled cluster_id id states (some (m, (sent, err))) = Isolates cluster_id id states m sent err

module _ {M : Type 0} (cluster_id : String) (states : Map String (ClusterState M)) where
  state_of-IsFiled :
      AreFiled states
      → ((state_of cluster_id states).cluster_id ≡ cluster_id)
        × IsFiled (state_of cluster_id states)
  unfolding state_of new_cluster_state lookup
  state_of-IsFiled f = elim (Option-cases (lookup cluster_id states)) [
    | inl p ↦ rw (p, state_of) (refl, λ j a e. absurd (cc))
    | inr (s, p) ↦ rw (p, state_of) (f cluster_id s p)
  ]

  state_of-insert : (s : ClusterState M) → state_of cluster_id (insert cluster_id s states) ≡ s
  unfolding state_of
  state_of-insert s =
      ground (arith, lookup-insert cluster_id cluster_id s states, beq_refl cluster_id)

  insert-AreFiled :
      (s : ClusterState M)
      → s.cluster_id ≡ cluster_id
      → IsFiled s
      → AreFiled states
      → AreFiled (insert cluster_id s states)
  insert-AreFiled s e f all j u p =
      ground (arith, lookup-insert cluster_id j s states, all j u, string_eq.beq_iff cluster_id j)

module _ {M C S : Type 0} (cluster_id id : String) where
  silent-Handled :
      (m : Monitor M C S) (err : Option String)
      → AreFiled m.states
      → Handled cluster_id id m.states (some (m, ([], err)))
  silent-Handled m err f = record {
    other_targets = λ j n. refl;
    other_instances = λ j n. refl;
    about = tt;
    at_most_one = omega arith;
    none_beside_error = λ e p. refl;
    filed = f;
  }

  put_back-Handled :
      (m : Monitor M C S) (effect : Effect M (Target M C))
      → AreFiled m.states
      → Ends id (target_of cluster_id m) effect
      → Handled cluster_id id m.states (put_back cluster_id m effect)
  unfolding put_back put_target target_of
  put_back-Handled m none f h = tt
  put_back-Handled m (some (t, (sent, err))) f h =
      let (named, filed) = state_of-IsFiled cluster_id m.states f in
      let back = state_of-insert cluster_id m.states t.state in
      record {
        other_targets = λ j n. ground (arith, lookup-insert cluster_id j t.state m.states);
        other_instances = λ j n. rw back (h.touches.others j n);
        about = subst (λ i. All (λ o. IsAbout i id (changes_of o)) sent) named h.about;
        at_most_one = h.at_most_one;
        none_beside_error = h.none_beside_error;
        filed =
            insert-AreFiled cluster_id m.states t.state (h.touches.same_target ∙ named)
              h.touches.filed f;
      }

  on_target-Handled :
      (err : Option String) (m : Monitor M C S) (operation : Target M C → Effect M (Target M C))
      → AreFiled m.states
      → ((t : Target M C) → IsFiled t.state → Ends id t (operation t))
      → Handled cluster_id id m.states (on_target cluster_id err m operation)
  unfolding on_target target_of
  on_target-Handled (some e) m operation f h = silent-Handled m (some e) f
  on_target-Handled none m operation f h =
      put_back-Handled m (operation (target_of cluster_id m)) f
        (h (target_of cluster_id m) (state_of-IsFiled cluster_id m.states f).1)

  -- Making sure of a target changes no state of a target.
  states-ensure_cluster :
      (meets : Meets M C S) (m : Monitor M C S)
      → (ensure_cluster meets cluster_id m).0.states ≡ m.states
  unfolding ensure_cluster
  states-ensure_cluster meets m = elim (Option-cases meets.registry_refuses) [
    | inl p ↦ rw (p, ensure_cluster) refl
    | inr (e, p) ↦ rw (p, ensure_cluster) refl
  ]

module _ (k : Kubernetes) {C : Type 0} where
  open k use {Manifest}

  with_desired-Ends :
      (id : String) (t : Target Manifest C)
      (desired : Option (Map ResourceKey (DesiredResource Manifest)))
      (operation : Map ResourceKey (DesiredResource Manifest) → Effect Manifest (Target Manifest C))
      → ((d : Map ResourceKey (DesiredResource Manifest)) → Ends id t (operation d))
      → Ends id t (with_desired k desired operation)
  unfolding with_desired
  with_desired-Ends id t none operation h = tt
  with_desired-Ends id t (some d) operation h = h d

-- The target and the instance that a command names.
abbrev pub named : ServerToClientStream → String × String
named (update_desired_resources_command command) = (
  cluster_id_from_proto command.cluster_id,
  application_instance_id_from_proto command.application_instance_id,
)
named (prune_other_versions_command command) = (
  cluster_id_from_proto command.cluster_id,
  application_instance_id_from_proto command.application_instance_id,
)
named (delete_desired_resources_command command) = (
  cluster_id_from_proto command.cluster_id,
  application_instance_id_from_proto command.application_instance_id,
)
named (replace_desired_resources_command command) = (
  cluster_id_from_proto command.cluster_id,
  application_instance_id_from_proto command.application_instance_id,
)
named unrecognised = ("", "")

module _ (k : Kubernetes) (default_api_resources : Map TypeMeta Bool)
    (unmarshal : String → Result String k.Manifest) {C S : Type 0} (stopped : Bool)
    (meets : Meets k.Manifest C S) where
  open k use {Manifest}

  ensured-Handled :
      (cluster_id id : String) (m : Monitor Manifest C S)
      (operation : Target Manifest C → Effect Manifest (Target Manifest C))
      → AreFiled m.states
      → ((t : Target Manifest C) → IsFiled t.state → Ends id t (operation t))
      → let (m', err) = ensure_cluster meets cluster_id m in
        Handled cluster_id id m.states (on_target cluster_id err m' operation)
  ensured-Handled cluster_id id m operation f h =
      let (m', err) = ensure_cluster meets cluster_id m in
      let same = states-ensure_cluster cluster_id id meets m in
      subst (λ states. Handled cluster_id id states (on_target cluster_id err m' operation)) same
        (on_target-Handled cluster_id id err m' operation
          (subst (λ states. AreFiled states) (sym same) f) h)

  -- If the states are filed under their targets and the instances under their ids, then a command that
  -- is handled, with an error or without, leaves them so. It leaves every other target's state as it
  -- was, and every other instance of its own target; and it passes on at most one report, which names
  -- the command's target and instance, and none beside an error.
  pub handle-Isolates :
      (message : ServerToClientStream) (m : Monitor Manifest C S)
      → AreFiled m.states
      → Handled
          (named message).0
          (named message).1
          m.states
          (handle k default_api_resources unmarshal stopped meets message m)
  unfolding handle handle_update_desired_resources_command handle_replace_desired_resources_command
      handle_prune_other_versions_command handle_delete_desired_resources_command
  handle-Isolates (update_desired_resources_command command) m f = ensured-Handled _ _ m _ f λ t h.
      with_desired-Ends k _ t _ _ λ d.
        merge_desired_resources-Ends k default_api_resources stopped meets.target_refuses
          meets.clusters _ d command.hash_salt t h
  handle-Isolates (replace_desired_resources_command command) m f = ensured-Handled _ _ m _ f λ t h.
      with_desired-Ends k _ t _ _ λ d.
        replace_desired_resources-Ends k default_api_resources stopped meets.target_refuses
          meets.clusters _ d command.hash_salt t h
  handle-Isolates (prune_other_versions_command command) m f =
      on_target-Handled _ _ (get_cluster_error meets _ m) m _ f λ t h.
        delete_desired_resources_except_for_version-Ends k default_api_resources stopped
          meets.target_refuses _ (version_from_proto command.version) t h
  handle-Isolates (delete_desired_resources_command command) m f =
      on_target-Handled _ _ (get_cluster_error meets _ m) m _ f λ t h.
        delete_desired_resources-Ends k default_api_resources stopped meets.target_refuses _
          (map desired_resource_id_from_proto command.resource_ids) t h
  handle-Isolates unrecognised m f = silent-Handled "" "" m none f
