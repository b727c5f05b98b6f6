-- ===== src/Targets/Filed.antt =====
-- An operation on a target (internal/cluster/cluster.go) touches one application instance, and what it
-- passes on is about that instance.
use kubernetes_monitor.Prelude.{
  ◌≡◌, refl, sym, ◌∙◌, String, Bool, false, Option, none, some, Result, ok, failed, arith,
  string_eq, ◌==◌, Option-cases, Bool-cases, inl, inr, subst,
}
use kubernetes_monitor.Prelude.Maps.{Map, lookup, insert, lookup-insert}
use kubernetes_monitor.Resources.{Kubernetes, TypeMeta, ApplicationInstanceChanges}
use kubernetes_monitor.Instance.{ApplicationInstance}
use kubernetes_monitor.Snapshot.{SharedCluster}
use kubernetes_monitor.ClusterState.{
  Target, upsert_application_instance, replace_from_cluster, publish_interests, rescanned, rescan,
  reply,
}
use kubernetes_monitor.ClusterState.Sweep.{with_instances}
use kubernetes_monitor.Targets.Kept.{IsFiled, Keeps, replace_from_cluster-Keeps, IsAbout}

-- Only the instance `id` of the target is touched.
pub record Touches {M C : Type 0} (id : String) (t u : Target M C) : Type 0 where
  pub same_target : u.state.cluster_id ≡ t.state.cluster_id
  pub others :
      (j : String)
      → (id == j) ≡ false
      → lookup j u.state.application_instances ≡ lookup j t.state.application_instances
  pub filed : IsFiled u.state

module _ {M C : Type 0} (id : String) (t : Target M C) where
  pub Touches-self : IsFiled t.state → Touches id t t
  Touches-self f = record { same_target = refl; others = λ j n. refl; filed = f }

  pub insert-Touches :
      (a : ApplicationInstance M) (u : Target M C)
      → a.application_instance_id ≡ id
      → Touches id t u
      → Touches id t (with_instances (insert id a u.state.application_instances) u)
  insert-Touches a u e h = record {
    same_target = h.same_target;
    others =
        λ j n. ground (arith, lookup-insert id j a u.state.application_instances, h.others j n);
    filed = λ j b p. ground (
      arith,
      lookup-insert id j a u.state.application_instances,
      h.filed j b,
      string_eq.beq_iff id j,
    );
  }

  upsert-Touches :
      (a : ApplicationInstance M) (u : Target M C)
      → a.application_instance_id ≡ id
      → Touches id t u
      → Touches id t (upsert_application_instance a u)
  unfolding upsert_application_instance
  upsert-Touches a u e h =
      subst (λ key. Touches id t (with_instances (insert key a u.state.application_instances) u))
        (sym e) (insert-Touches a u e h)

module _ (k : Kubernetes) (default_api_resources : Map TypeMeta Bool) {C : Type 0}
    (stopped : Bool) where
  open k use {Manifest}

  pub publish-Touches :
      (id : String) (t u : Target Manifest C)
      → Touches id t u
      → Touches id t (publish_interests k default_api_resources stopped u)
  unfolding publish_interests
  publish-Touches id t u h = elim (Bool-cases stopped) [
    | inl p ↦ rw p h
    | inr p ↦ rw p (record { same_target = h.same_target; others = h.others; filed = h.filed })
  ]

  -- What a rescan leaves: the target, and the instance under its id.
  abbrev pub Rescanned :
      String
      → Target Manifest C
      → Option (Target Manifest C × (ApplicationInstance Manifest × Option String))
      → Type 0
  Rescanned id t none = Unit {0}
  Rescanned id t (some (u, (a, err))) = Touches id t u × (a.application_instance_id ≡ id)

  rescanned-Rescanned :
      (id : String) (t u : Target Manifest C)
      (o : Option (ApplicationInstance Manifest × Option String))
      → Touches id t u
      → Keeps k default_api_resources id o
      → Rescanned id t (rescanned k default_api_resources stopped u o)
  unfolding rescanned
  rescanned-Rescanned id t u none h e = tt
  rescanned-Rescanned id t u (some (a, some err)) h e = (upsert-Touches id t a u e h, e)
  rescanned-Rescanned id t u (some (a, none)) h e =
      (publish-Touches id t (upsert_application_instance a u) (upsert-Touches id t a u e h), e)

  pub rescan-Rescanned :
      (id : String) (c : SharedCluster Manifest) (a : ApplicationInstance Manifest)
      (t : Target Manifest C)
      → IsFiled t.state
      → a.application_instance_id ≡ id
      → Rescanned id t (rescan k default_api_resources stopped c a t)
  unfolding rescan
  rescan-Rescanned id c a t f e =
      let published =
        publish-Touches id t (upsert_application_instance a t)
          (upsert-Touches id t a t e (Touches-self id t f)) in
      elim (Option-cases c.ensure_synced) [
        | inl p ↦
            rw (p, rescan)
              (rescanned-Rescanned id t
                (publish_interests k default_api_resources stopped
                  (upsert_application_instance a t))
                (replace_from_cluster k default_api_resources c t.state.cluster_id a) published
                (subst
                  (λ i.
                    Keeps k default_api_resources i
                      (replace_from_cluster k default_api_resources c t.state.cluster_id a))
                  e (replace_from_cluster-Keeps k default_api_resources c t.state.cluster_id a)))
        | inr (err, p) ↦ rw (p, rescan) (published, e)
      ]

  abbrev pub Replied :
      String
      → Target Manifest C
      → Option (Target Manifest C × Result String (ApplicationInstanceChanges Manifest))
      → Type 0
  Replied id t none = Unit {0}
  Replied id t (some (u, failed e)) = Touches id t u
  Replied id t (some (u, ok c)) = Touches id t u × IsAbout t.state.cluster_id id c

  pub reply-Replied :
      (id : String) (t : Target Manifest C)
      (changes : ApplicationInstance Manifest → ApplicationInstanceChanges Manifest)
      (o : Option (Target Manifest C × (ApplicationInstance Manifest × Option String)))
      → ((a : ApplicationInstance Manifest)
          → IsAbout t.state.cluster_id a.application_instance_id (changes a))
      → Rescanned id t o
      → Replied id t (reply k default_api_resources stopped changes o)
  unfolding reply
  reply-Replied id t changes none about h = tt
  reply-Replied id t changes (some (u, (a, some e))) about h = h.0
  reply-Replied id t changes (some (u, (a, none))) about h = (h.0, ((about a).0 ∙ h.1, (about a).1))
