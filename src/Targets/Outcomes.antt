-- ===== src/Targets/Outcomes.antt =====
-- What each operation of a target (internal/cluster/cluster.go) leaves and passes on.
use kubernetes_monitor.Prelude.{
  ◌≡◌, refl, ◌∙◌, ℕ, ◌≤◌, String, Bool, Option, none, some, List, [], ◌∷◌, map, Result, ok, failed,
  length, All, arith, string_eq, Option-cases, inl, inr,
}
use kubernetes_monitor.Prelude.Maps.{Map, values, lookup, insert}
use kubernetes_monitor.Resources.{
  Kubernetes, ResourceKey, TypeMeta, DesiredResource, ApplicationInstanceChanges,
}
use kubernetes_monitor.Instance.{
  ApplicationInstance, monitored_resource_changes, replace_monitored_resources,
}
use kubernetes_monitor.Instance.State as Instance
use kubernetes_monitor.Snapshot.{SharedCluster}
use kubernetes_monitor.ClusterState.{
  Target, get_or_create_application_instance, incoming_changes, rescan, merge_resolved,
  replace_resolved, resolved_incoming, merge_desired, replace_desired,
}
use kubernetes_monitor.ClusterState.Sweep.{
  delete_from, delete_desired, delete_desired_except_for_version, with_instances,
}
use kubernetes_monitor.Targets.Kept.{IsFiled, created_id, merged_id, IsAbout}
use kubernetes_monitor.Targets.{Outgoing, update, replace, changes_of, Effect, call, passed_on}
use kubernetes_monitor.Targets
use kubernetes_monitor.Targets.Filed.{
  Touches, Touches-self, insert-Touches, publish-Touches, rescan-Rescanned, Replied, reply-Replied,
}

-- What an operation leaves and passes on: only the instance `id` is touched; at most one report is
-- passed on, which is about that instance, and none beside an error.
pub record Outcome {M C : Type 0} (id : String) (t u : Target M C) (sent : List (Outgoing M))
    (err : Option String) : Type 0 where
  pub touches : Touches id t u
  pub about : All (λ o. IsAbout t.state.cluster_id id (changes_of o)) sent
  pub at_most_one : length sent ≤ 1
  pub none_beside_error : (e : String) → err ≡ some e → sent ≡ []

abbrev pub Ends : {M C : Type 0} → String → Target M C → Effect M (Target M C) → Type 0
Ends id t none = Unit {0}
Ends id t (some (u, (sent, err))) = Outcome id t u sent err

module _ {M C : Type 0} (id : String) (t : Target M C) where
  silent-Ends :
      (u : Target M C) (err : Option String) → Touches id t u → Ends id t (some (u, ([], err)))
  silent-Ends u err h = record {
    touches = h;
    about = tt;
    at_most_one = omega arith;
    none_beside_error = λ e p. refl;
  }

  call-Ends :
      (refused : Option String) (effect : Effect M (Target M C))
      → IsFiled t.state
      → Ends id t effect
      → Ends id t (call refused t effect)
  unfolding call
  call-Ends none effect f h = h
  call-Ends (some refusal) effect f h = silent-Ends t (some refusal) (Touches-self id t f)

excepted_id :
    {M : Type 0} (version_to_keep : String) (a : ApplicationInstance M)
    → (Instance.delete_desired_resources_except_for_version version_to_keep
        a).application_instance_id
      ≡ a.application_instance_id
unfolding Instance.delete_desired_resources_except_for_version
excepted_id version_to_keep a = refl

deleted_id :
    {M : Type 0} (resource_ids : List String) (a : ApplicationInstance M)
    → (Instance.delete_desired_resources resource_ids a).application_instance_id
      ≡ a.application_instance_id
unfolding Instance.delete_desired_resources
deleted_id resource_ids a = refl

module _ (k : Kubernetes) (default_api_resources : Map TypeMeta Bool) {C : Type 0}
    (stopped : Bool) where
  open k use {Manifest}

  passed_on-Ends :
      (id : String) (t : Target Manifest C)
      (send : ApplicationInstanceChanges Manifest → Outgoing Manifest)
      (o : Option (Target Manifest C × Result String (ApplicationInstanceChanges Manifest)))
      → ((c : ApplicationInstanceChanges Manifest) → changes_of (send c) ≡ c)
      → Replied k default_api_resources stopped id t o
      → Ends id t (passed_on send o)
  unfolding passed_on
  passed_on-Ends id t send none same h = tt
  passed_on-Ends id t send (some (u, failed e)) same h = silent-Ends id t u (some e) h
  passed_on-Ends id t send (some (u, ok c)) same h = record {
    touches = h.0;
    about = (rw (same c) h.1, tt);
    at_most_one = omega arith;
    none_beside_error = λ e p. absurd (cc);
  }

  merge_resolved-Replied :
      (clusters : ℕ → SharedCluster Manifest) (id hash_salt : String) (t : Target Manifest C)
      (incoming : Map ResourceKey (DesiredResource Manifest) × ℕ)
      → IsFiled t.state
      → Replied k default_api_resources stopped id t
          (merge_resolved k default_api_resources stopped clusters id hash_salt t incoming)
  unfolding merge_resolved incoming_changes
  merge_resolved-Replied clusters id hash_salt t (incoming, n) f =
      let created = get_or_create_application_instance id hash_salt t in
      let a = Instance.merge_desired_resources k t.state.cluster_id incoming created in
      reply-Replied k default_api_resources stopped id t
        (incoming_changes t.state.cluster_id (map (λ d. d.id) (values incoming)))
        (rescan k default_api_resources stopped (clusters n) a t) (λ b. (refl, refl))
        (rescan-Rescanned k default_api_resources stopped id (clusters n) a t f
          (merged_id k t.state.cluster_id incoming created ∙ created_id id hash_salt t f))

  replace_resolved-Replied :
      (clusters : ℕ → SharedCluster Manifest) (id hash_salt : String) (t : Target Manifest C)
      (incoming : Map ResourceKey (DesiredResource Manifest) × ℕ)
      → IsFiled t.state
      → Replied k default_api_resources stopped id t
          (replace_resolved k default_api_resources stopped clusters id hash_salt t incoming)
  unfolding replace_resolved monitored_resource_changes Instance.replace_desired_resources
      replace_monitored_resources
  replace_resolved-Replied clusters id hash_salt t (incoming, n) f =
      let created = get_or_create_application_instance id hash_salt t in
      let a = Instance.replace_desired_resources k t.state.cluster_id incoming created in
      reply-Replied k default_api_resources stopped id t
        (monitored_resource_changes t.state.cluster_id)
        (rescan k default_api_resources stopped (clusters n) a t) (λ b. (refl, refl))
        (rescan-Rescanned k default_api_resources stopped id (clusters n) a t f
          (created_id id hash_salt t f))

  delete_from-Touches :
      (edit : ApplicationInstance Manifest → ApplicationInstance Manifest) (id : String)
      (t : Target Manifest C)
      → ((a : ApplicationInstance Manifest)
          → (edit a).application_instance_id ≡ a.application_instance_id)
      → IsFiled t.state
      → Touches id t (delete_from k default_api_resources stopped edit id t)
  unfolding delete_from
  delete_from-Touches edit id t keeps f =
      elim (Option-cases (lookup id t.state.application_instances)) [
        | inl p ↦ rw (p, delete_from) (Touches-self id t f)
        | inr (a, p) ↦
            rw (p, delete_from)
              (publish-Touches k default_api_resources stopped id t
                (with_instances (insert id (edit a) t.state.application_instances) t)
                (insert-Touches id t (edit a) t (keeps a ∙ f id a p) (Touches-self id t f)))
      ]

  -- Each of the four operations that commands reach.
  pub delete_desired_resources_except_for_version-Ends :
      (refused : Option String) (id version_to_keep : String) (t : Target Manifest C)
      → IsFiled t.state
      → Ends id t (
          Targets.delete_desired_resources_except_for_version k default_api_resources stopped
            refused id version_to_keep t)
  unfolding Targets.delete_desired_resources_except_for_version delete_desired_except_for_version
  delete_desired_resources_except_for_version-Ends refused id version_to_keep t f =
      let edit = Instance.delete_desired_resources_except_for_version version_to_keep in
      call-Ends id t refused _ f (
        silent-Ends id t (delete_from k default_api_resources stopped edit id t) none
          (delete_from-Touches edit id t (excepted_id version_to_keep) f))

  pub delete_desired_resources-Ends :
      (refused : Option String) (id : String) (resource_ids : List String) (t : Target Manifest C)
      → IsFiled t.state
      → Ends id t (
          Targets.delete_desired_resources k default_api_resources stopped refused id resource_ids
            t)
  unfolding Targets.delete_desired_resources delete_desired
  delete_desired_resources-Ends refused id resource_ids t f =
      let edit = Instance.delete_desired_resources resource_ids in
      call-Ends id t refused _ f (
        silent-Ends id t (delete_from k default_api_resources stopped edit id t) none
          (delete_from-Touches edit id t (deleted_id resource_ids) f))

  pub merge_desired_resources-Ends :
      (refused : Option String) (clusters : ℕ → SharedCluster Manifest) (id : String)
      (desired : Map ResourceKey (DesiredResource Manifest)) (hash_salt : String)
      (t : Target Manifest C)
      → IsFiled t.state
      → Ends id t (
          Targets.merge_desired_resources k default_api_resources stopped refused clusters id
            desired hash_salt t)
  unfolding Targets.merge_desired_resources merge_desired
  merge_desired_resources-Ends refused clusters id [] hash_salt t f =
      silent-Ends id t t none (Touches-self id t f)
  merge_desired_resources-Ends refused clusters id (entry ∷ desired) hash_salt t f =
      call-Ends id t refused _ f (
        passed_on-Ends id t update _ (λ c. refl)
          (merge_resolved-Replied clusters id hash_salt t
            (resolved_incoming k default_api_resources clusters (entry ∷ desired)) f))

  pub replace_desired_resources-Ends :
      (refused : Option String) (clusters : ℕ → SharedCluster Manifest) (id : String)
      (desired : Map ResourceKey (DesiredResource Manifest)) (hash_salt : String)
      (t : Target Manifest C)
      → IsFiled t.state
      → Ends id t (
          Targets.replace_desired_resources k default_api_resources stopped refused clusters id
            desired hash_salt t)
  unfolding Targets.replace_desired_resources replace_desired
  replace_desired_resources-Ends refused clusters id desired hash_salt t f =
      call-Ends id t refused _ f (
        passed_on-Ends id t replace _ (λ c. refl)
          (replace_resolved-Replied clusters id hash_salt t
            (resolved_incoming k default_api_resources clusters desired) f))
