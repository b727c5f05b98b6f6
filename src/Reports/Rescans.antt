-- ===== src/Reports/Rescans.antt =====
-- The reports of the operations that rescan an application instance (internal/cluster/cluster_state.go), as
-- internal/cluster/cluster.go passes them on.
use kubernetes_monitor.Prelude.{
  ℕ, String, Bool, Option, none, some, [], ◌∷◌, Result, ok, failed, inl, inr, string_eq,
  Option-cases, ◌≡◌, refl,
}
use kubernetes_monitor.Prelude.Maps.{Map}
use kubernetes_monitor.Resources.{
  Kubernetes, ResourceKey, TypeMeta, DesiredResource, ApplicationInstanceChanges,
}
use kubernetes_monitor.Instance.{ApplicationInstance}
use kubernetes_monitor.Instance.State as Instance
use kubernetes_monitor.Snapshot.{SharedCluster}
use kubernetes_monitor.ClusterState.{
  Target, get_or_create_application_instance, replace_from_cluster, upsert_application_instance,
  publish_interests, rescanned, rescan, reply, merge_resolved, replace_resolved, resolved_incoming,
  merge_desired, replace_desired,
}
use kubernetes_monitor.Targets.{Outgoing, update, replace, Effect, changes_of, call, passed_on}
use kubernetes_monitor.Targets
use kubernetes_monitor.Protos.Totals.{IsReportable}
use kubernetes_monitor.Reports.Replies.{
  HoldsKnown, SendsKnown, RepliesKnown, ReplacesKnown, replace_from_cluster-Known,
  monitored_resource_changes-IsReportable, incoming_changes-IsReportable,
}

pub silent-Known :
    (M : Type 0) {S : Type 0} (s : S) (err : Option String)
    → SendsKnown {M = M} (some (s, ([], err)))
unfolding SendsKnown
silent-Known M s err = tt

-- Behind a refusal, and for whatever a command passes its changes on as.
pub call-Known :
    {M S : Type 0} (refused : Option String) (s : S) (effect : Effect M S)
    → SendsKnown effect
    → SendsKnown (call refused s effect)
unfolding call SendsKnown
call-Known none s effect h = h
call-Known (some refusal) s effect h = tt

passed_on-Known :
    {M S : Type 0} (send : ApplicationInstanceChanges M → Outgoing M)
    (o : Option (S × Result String (ApplicationInstanceChanges M)))
    → ((c : ApplicationInstanceChanges M) → changes_of (send c) ≡ c)
    → RepliesKnown o
    → SendsKnown (passed_on send o)
unfolding passed_on SendsKnown
passed_on-Known send none same h = tt
passed_on-Known send (some (s, failed e)) same h = tt
passed_on-Known send (some (s, ok c)) same h = (rw (same c) h, tt)

module _ (k : Kubernetes) (default_api_resources : Map TypeMeta Bool) {C : Type 0}
    (stopped : Bool) where
  open k use {Manifest}

  -- What a rescan makes of its instance, where it succeeds.
  abbrev RescansKnown :
      Option (Target Manifest C × (ApplicationInstance Manifest × Option String)) → Type 0
  RescansKnown none = Unit {0}
  RescansKnown (some (t, (a, some e))) = Unit {0}
  RescansKnown (some (t, (a, none))) = HoldsKnown a

  rescanned-Known :
      (t : Target Manifest C) (o : Option (ApplicationInstance Manifest × Option String))
      → ReplacesKnown k default_api_resources o
      → RescansKnown (rescanned k default_api_resources stopped t o)
  unfolding rescanned
  rescanned-Known t none h = tt
  rescanned-Known t (some (a, some e)) h = tt
  rescanned-Known t (some (a, none)) h = h

  rescan-Known :
      (c : SharedCluster Manifest) (a : ApplicationInstance Manifest) (t : Target Manifest C)
      → RescansKnown (rescan k default_api_resources stopped c a t)
  unfolding rescan
  rescan-Known c a t = elim (Option-cases c.ensure_synced) [
    | inl p ↦
        rw (p, rescan)
          (rescanned-Known
            (publish_interests k default_api_resources stopped (upsert_application_instance a t))
            (replace_from_cluster k default_api_resources c t.state.cluster_id a)
            (replace_from_cluster-Known k default_api_resources c t.state.cluster_id a))
    | inr (err, p) ↦ rw (p, rescan) tt
  ]

  reply-Known :
      (changes : ApplicationInstance Manifest → ApplicationInstanceChanges Manifest)
      (o : Option (Target Manifest C × (ApplicationInstance Manifest × Option String)))
      → ((a : ApplicationInstance Manifest) → HoldsKnown a → IsReportable (changes a))
      → RescansKnown o
      → RepliesKnown (reply k default_api_resources stopped changes o)
  unfolding reply
  reply-Known changes none report h = tt
  reply-Known changes (some (t, (a, some e))) report h = tt
  reply-Known changes (some (t, (a, none))) report h = report a h

  merge_resolved-Known :
      (clusters : ℕ → SharedCluster Manifest) (id hash_salt : String) (t : Target Manifest C)
      (incoming : Map ResourceKey (DesiredResource Manifest) × ℕ)
      → RepliesKnown
          (merge_resolved k default_api_resources stopped clusters id hash_salt t incoming)
  unfolding merge_resolved
  merge_resolved-Known clusters id hash_salt t (incoming, n) =
      reply-Known _ _ (incoming_changes-IsReportable _ _) (
        rescan-Known (clusters n)
          (Instance.merge_desired_resources k t.state.cluster_id incoming
            (get_or_create_application_instance id hash_salt t))
          t)

  replace_resolved-Known :
      (clusters : ℕ → SharedCluster Manifest) (id hash_salt : String) (t : Target Manifest C)
      (incoming : Map ResourceKey (DesiredResource Manifest) × ℕ)
      → RepliesKnown
          (replace_resolved k default_api_resources stopped clusters id hash_salt t incoming)
  unfolding replace_resolved
  replace_resolved-Known clusters id hash_salt t (incoming, n) =
      reply-Known _ _ (monitored_resource_changes-IsReportable _) (
        rescan-Known (clusters n)
          (Instance.replace_desired_resources k t.state.cluster_id incoming
            (get_or_create_application_instance id hash_salt t))
          t)

  module _ (refused : Option String) where
    pub merge_desired_resources-Known :
        (clusters : ℕ → SharedCluster Manifest) (id : String)
        (desired : Map ResourceKey (DesiredResource Manifest)) (hash_salt : String)
        (t : Target Manifest C)
        → SendsKnown (
            Targets.merge_desired_resources k default_api_resources stopped refused clusters id
              desired hash_salt t)
    unfolding Targets.merge_desired_resources merge_desired SendsKnown
    merge_desired_resources-Known clusters id [] hash_salt t = tt
    merge_desired_resources-Known clusters id (entry ∷ desired) hash_salt t =
        call-Known refused t _ (
          passed_on-Known update _ (λ c. refl)
            (merge_resolved-Known clusters id hash_salt t
              (resolved_incoming k default_api_resources clusters (entry ∷ desired))))

    pub replace_desired_resources-Known :
        (clusters : ℕ → SharedCluster Manifest) (id : String)
        (desired : Map ResourceKey (DesiredResource Manifest)) (hash_salt : String)
        (t : Target Manifest C)
        → SendsKnown (
            Targets.replace_desired_resources k default_api_resources stopped refused clusters id
              desired hash_salt t)
    unfolding Targets.replace_desired_resources replace_desired
    replace_desired_resources-Known clusters id desired hash_salt t = call-Known refused t _ (
        passed_on-Known replace _ (λ c. refl)
          (replace_resolved-Known clusters id hash_salt t
            (resolved_incoming k default_api_resources clusters desired)))
