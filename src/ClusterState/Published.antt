-- ===== src/ClusterState/Published.antt =====
-- What a target of internal/cluster/cluster_state.go has published to the interest index.
use kubernetes_monitor.Prelude.{
  ◌≡◌, refl, subst, ◌∙◌, ℕ, String, Bool, false, Option, none, some, List, Result, ok, failed,
  string_eq, arith, Option-cases, inl, inr, beq_refl, ◌==◌,
}
use kubernetes_monitor.Prelude.Sets.{contains}
use kubernetes_monitor.Prelude.Maps.{Map, lookup, insert}
use kubernetes_monitor.Resources.{
  Kubernetes, ResourceKey, TypeMeta, key_eq, DesiredResource, ApplicationInstanceChanges,
}
use kubernetes_monitor.Prelude.{map}
use kubernetes_monitor.Prelude.Maps.{values}
use kubernetes_monitor.Instance.{ApplicationInstance, monitored_resource_changes}
use kubernetes_monitor.Instance.State as Instance
use kubernetes_monitor.Interests.{InterestIndex}
use kubernetes_monitor.Interests.Both.{Agrees, interested}
use kubernetes_monitor.Interests.Publish.{set_publishes}
use kubernetes_monitor.Snapshot.{SharedCluster}
use kubernetes_monitor.ClusterState.{
  Target, upsert_application_instance, keys_of_interest, publish_interests, rescanned, rescan,
  reply, merge_desired, replace_desired, merge_resolved, replace_resolved, resolved_incoming,
  incoming_changes, get_or_create_application_instance, replace_from_cluster,
}
use kubernetes_monitor.Prelude.{◌>>=◌}
use kubernetes_monitor.ClusterState.Sweep.{
  Swept, with_instances, delete_from, monitored_resource_updates, sweep,
}

module _ (k : Kubernetes) {C : Type 0} where
  open k use {Manifest}

  -- The index holds exactly the keys of the target's instances as its own, what it held of the others
  -- before, and the same both ways round.
  pub record Publishes (x : InterestIndex C) (id : String) (t : Target Manifest C) : Type 0 where
    pub named : t.state.cluster_id ≡ id
    pub agrees : Agrees t.interests
    pub own :
        (j : ResourceKey) → interested t.interests j id ≡ contains (keys_of_interest k t.state) j
    pub others :
        (j : ResourceKey) (other : String)
        → (id == other) ≡ false
        → interested t.interests j other ≡ interested x j other

module _ (k : Kubernetes) (default_api_resources : Map TypeMeta Bool) {C : Type 0} where
  open k use {Manifest}

  publish-Publishes :
      (x : InterestIndex C) (id : String) (t : Target Manifest C)
      → t.state.cluster_id ≡ id
      → Agrees t.interests
      → ((j : ResourceKey) (other : String)
          → (id == other) ≡ false
          → interested t.interests j other ≡ interested x j other)
      → Publishes k x id (publish_interests k default_api_resources false t)
  unfolding publish_interests
  publish-Publishes x id t e agrees others =
      let published =
        set_publishes t.state.cluster_id (keys_of_interest k t.state) t.interests agrees in
      record {
        named = e;
        agrees = published.0;
        own = λ j. published.1 j id ∙ ground (arith, e, beq_refl id);
        others = λ j other n. published.1 j other ∙ ground (arith, e, others j other n);
      }

  -- What holds of a rescan that meets no error.
  abbrev Rescanned :
      InterestIndex C
      → String
      → Option (Target Manifest C × (ApplicationInstance Manifest × Option String))
      → Type 0
  Rescanned x id none = Unit {0}
  Rescanned x id (some (t, (a, some e))) = Unit {0}
  Rescanned x id (some (t, (a, none))) = Publishes k x id t

  rescanned-Rescanned :
      (x : InterestIndex C) (id : String) (t : Target Manifest C)
      (o : Option (ApplicationInstance Manifest × Option String))
      → Publishes k x id t
      → Rescanned x id (rescanned k default_api_resources false t o)
  unfolding rescanned upsert_application_instance
  rescanned-Rescanned x id t none p = tt
  rescanned-Rescanned x id t (some (a, some e)) p = tt
  rescanned-Rescanned x id t (some (a, none)) p =
      publish-Publishes x id (upsert_application_instance a t) p.named p.agrees p.others

  rescan-Rescanned :
      (c : SharedCluster Manifest) (a : ApplicationInstance Manifest) (t : Target Manifest C)
      → Agrees t.interests
      → Rescanned t.interests t.state.cluster_id (rescan k default_api_resources false c a t)
  unfolding rescan upsert_application_instance
  rescan-Rescanned c a t agrees =
      let published =
        publish-Publishes t.interests t.state.cluster_id (upsert_application_instance a t) refl
          agrees (λ j o n. refl) in
      elim (Option-cases c.ensure_synced) [
        | inl p ↦
            rw (p, rescan)
              (rescanned-Rescanned t.interests t.state.cluster_id _
                (replace_from_cluster k default_api_resources c t.state.cluster_id a) published)
        | inr (e, p) ↦ rw (p, rescan) tt
      ]

  abbrev Replied :
      InterestIndex C
      → String
      → Option (Target Manifest C × Result String (ApplicationInstanceChanges Manifest))
      → Type 0
  Replied x id none = Unit {0}
  Replied x id (some (t, failed e)) = Unit {0}
  Replied x id (some (t, ok c)) = Publishes k x id t

  reply-Replied :
      (x : InterestIndex C) (id : String)
      (changes : ApplicationInstance Manifest → ApplicationInstanceChanges Manifest)
      (o : Option (Target Manifest C × (ApplicationInstance Manifest × Option String)))
      → Rescanned x id o
      → Replied x id (reply k default_api_resources false changes o)
  unfolding reply
  reply-Replied x id changes none h = tt
  reply-Replied x id changes (some (t, (a, some e))) h = tt
  reply-Replied x id changes (some (t, (a, none))) h = h

  merge_resolved-Replied :
      (clusters : ℕ → SharedCluster Manifest) (id hash_salt : String) (t : Target Manifest C)
      (incoming : Map ResourceKey (DesiredResource Manifest) × ℕ)
      → Agrees t.interests
      → Replied t.interests t.state.cluster_id
          (merge_resolved k default_api_resources false clusters id hash_salt t incoming)
  unfolding merge_resolved
  merge_resolved-Replied clusters id hash_salt t (incoming, n) agrees =
      let a =
        Instance.merge_desired_resources k t.state.cluster_id incoming
          (get_or_create_application_instance id hash_salt t) in
      reply-Replied t.interests t.state.cluster_id
        (incoming_changes t.state.cluster_id (map (λ d. d.id) (values incoming)))
        (rescan k default_api_resources false (clusters n) a t)
        (rescan-Rescanned (clusters n) a t agrees)

  -- While the interest index runs and its two maps agree: if a merge of desired resources
  -- succeeds, then the maps agree, and the index holds exactly the keys of interest of the
  -- target's instances for the target, and for every other target what it held before.
  pub merge_desired-Publishes :
      (clusters : ℕ → SharedCluster Manifest) (id : String)
      (desired : Map ResourceKey (DesiredResource Manifest)) (hash_salt : String)
      (t u : Target Manifest C) (changes : ApplicationInstanceChanges Manifest)
      → Agrees t.interests
      → merge_desired k default_api_resources false clusters id desired hash_salt t
        ≡ some (u, ok changes)
      → Publishes k t.interests t.state.cluster_id u
  unfolding merge_desired
  merge_desired-Publishes clusters id desired hash_salt t u changes agrees h =
      subst (Replied t.interests t.state.cluster_id) h (
        merge_resolved-Replied clusters id hash_salt t
          (resolved_incoming k default_api_resources clusters desired) agrees)

  replace_resolved-Replied :
      (clusters : ℕ → SharedCluster Manifest) (id hash_salt : String) (t : Target Manifest C)
      (incoming : Map ResourceKey (DesiredResource Manifest) × ℕ)
      → Agrees t.interests
      → Replied t.interests t.state.cluster_id
          (replace_resolved k default_api_resources false clusters id hash_salt t incoming)
  unfolding replace_resolved
  replace_resolved-Replied clusters id hash_salt t (incoming, n) agrees =
      let a =
        Instance.replace_desired_resources k t.state.cluster_id incoming
          (get_or_create_application_instance id hash_salt t) in
      reply-Replied t.interests t.state.cluster_id (monitored_resource_changes t.state.cluster_id)
        (rescan k default_api_resources false (clusters n) a t)
        (rescan-Rescanned (clusters n) a t agrees)

  -- While the interest index runs and its two maps agree: if a replacement of desired resources
  -- succeeds, then the maps agree, and the index holds exactly the keys of interest of the
  -- target's instances for the target, and for every other target what it held before.
  pub replace_desired-Publishes :
      (clusters : ℕ → SharedCluster Manifest) (id : String)
      (desired : Map ResourceKey (DesiredResource Manifest)) (hash_salt : String)
      (t u : Target Manifest C) (changes : ApplicationInstanceChanges Manifest)
      → Agrees t.interests
      → replace_desired k default_api_resources false clusters id desired hash_salt t
        ≡ some (u, ok changes)
      → Publishes k t.interests t.state.cluster_id u
  unfolding replace_desired
  replace_desired-Publishes clusters id desired hash_salt t u changes agrees h =
      subst (Replied t.interests t.state.cluster_id) h (
        replace_resolved-Replied clusters id hash_salt t
          (resolved_incoming k default_api_resources clusters desired) agrees)

  -- While the interest index runs: if it holds what the target publishes and its two maps agree,
  -- then it does and they do after either deletion, which changes nothing for any other target.
  pub delete_from-Publishes :
      (edit : ApplicationInstance Manifest → ApplicationInstance Manifest) (id : String)
      (t : Target Manifest C)
      → Publishes k t.interests t.state.cluster_id t
      → Publishes k t.interests t.state.cluster_id
          (delete_from k default_api_resources false edit id t)
  unfolding delete_from
  delete_from-Publishes edit id t h =
      elim (Option-cases (lookup id t.state.application_instances)) [
        | inl p ↦ rw (p, delete_from) h
        | inr (a, p) ↦
            rw (p, delete_from)
              (publish-Publishes t.interests t.state.cluster_id
                (with_instances (insert id (edit a) t.state.application_instances) t) refl h.agrees
                (λ j o n. refl))
      ]

  swept-Publishes :
      (t u : Target Manifest C) (updates : List (ApplicationInstanceChanges Manifest))
      (o : Option (Swept Manifest))
      → Agrees t.interests
      → ◌>>=◌ {B = Target Manifest C × List (ApplicationInstanceChanges Manifest)} o (λ swept.
        some (
          publish_interests k default_api_resources false (with_instances swept.instances t),
          swept.updates,
        ))
        ≡ some (u, updates)
      → Publishes k t.interests t.state.cluster_id u
  swept-Publishes t u updates none agrees h = cc
  swept-Publishes t u updates (some swept) agrees h =
      subst (Publishes k t.interests t.state.cluster_id) (cc) (
        publish-Publishes t.interests t.state.cluster_id (with_instances swept.instances t) refl
          agrees (λ j o n. refl))

  -- While the interest index runs and its two maps agree: after a sweep that returns, whichever of
  -- the instances' snapshots fail, the maps agree, and the index holds exactly the keys of
  -- interest of the target's instances for the target, and for every other target what it held
  -- before.
  pub monitored_resource_updates-Publishes :
      (c : SharedCluster Manifest) (t u : Target Manifest C)
      (updates : List (ApplicationInstanceChanges Manifest))
      → Agrees t.interests
      → monitored_resource_updates k default_api_resources false c t ≡ some (u, updates)
      → Publishes k t.interests t.state.cluster_id u
  unfolding monitored_resource_updates
  monitored_resource_updates-Publishes c t u updates agrees h =
      swept-Publishes t u updates
        (sweep k default_api_resources c t.state.cluster_id t.state.application_instances) agrees h
