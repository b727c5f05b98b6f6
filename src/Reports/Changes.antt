-- ===== src/Reports/Changes.antt =====
-- The changes that an event of the cluster cache makes a target pass on
-- (internal/cluster/application_instance.go, cluster_state.go and cluster.go).
use kubernetes_monitor.Prelude.{
  String, Bool, Option, none, some, List, [], ◌∷◌, map, Result, ok, failed, All, All-append, inl,
  inr, string_eq, Option-cases, subst, ◌>>=◌,
}
use kubernetes_monitor.Prelude.Maps.{Map}
use kubernetes_monitor.Resources.{
  Kubernetes, TypeMeta, DesiredResource, CacheResource, ChildMonitoredResource,
  ApplicationInstanceChanges, new_present_monitored_resource,
}
use kubernetes_monitor.Instance.{
  ApplicationInstance, Outcome, OnResourceUpdated, no_change, desired_resource_found,
  desired_resource_updated, desired_resource_removed, child_resource_found, child_resource_updated,
  child_resource_removed, record_present, record_missing, record_child, upsert_child, desired_of,
  apply_change, calculate_resource_change, new_manifest, get_changes_for_updated_resource,
  get_parent_resource_id, get_root_parent_resource, delete_missing_monitored_resource,
}
use kubernetes_monitor.Snapshot.{SharedCluster, manifest_of}
use kubernetes_monitor.ClusterState.{Target}
use kubernetes_monitor.ClusterState.Sweep.{
  event_update, changes_for_updated_resource, apply_resource_change,
}
use kubernetes_monitor.Targets.{update, send_resource_change_updates, run_change, changes_of}
use kubernetes_monitor.Protos.Totals.{IsReportable}
use kubernetes_monitor.Reports.Statuses.{get_sync_status-IsRecognised, new_missing-IsRecognised}
use kubernetes_monitor.Reports.Replies.{SendsKnown, SweepsKnown}

module _ (k : Kubernetes) (cluster_id : String) where
  open k use {Manifest}

  -- What one instance reports of an event, if it does.
  abbrev ReportsKnown : Outcome k → Type 0
  ReportsKnown none = Unit {0}
  ReportsKnown (some (a, failed e)) = Unit {0}
  ReportsKnown (some (a, ok none)) = Unit {0}
  ReportsKnown (some (a, ok (some c))) = IsReportable c

  present-Known :
      (after : ApplicationInstance Manifest → ApplicationInstance Manifest)
      (a : ApplicationInstance Manifest) (res : CacheResource Manifest) (manifest : Option Manifest)
      (d : DesiredResource Manifest)
      → ReportsKnown (
          record_present k cluster_id after a
            (new_present_monitored_resource k cluster_id res manifest d a.hash_salt))
  unfolding record_present new_present_monitored_resource
  present-Known after a res manifest d = record {
    present = (get_sync_status-IsRecognised k _ d, tt);
    missing = tt;
    unknown = tt;
  }

  record_child-Known :
      (a : ApplicationInstance Manifest) (r : Result String (ChildMonitoredResource Manifest))
      → ReportsKnown (record_child k cluster_id a r)
  unfolding record_child
  record_child-Known a (failed e) = tt
  record_child-Known a (ok child) = record { present = tt; missing = tt; unknown = tt }

  upsert_child-Known :
      (a : ApplicationInstance Manifest) (res : CacheResource Manifest) (manifest : Option Manifest)
      → ReportsKnown (upsert_child k cluster_id a res manifest)
  unfolding upsert_child
  upsert_child-Known a res manifest =
      let owner_id = get_parent_resource_id k a res.info in
      elim (Option-cases (get_root_parent_resource owner_id a.child_monitored_resources)) [
        | inl p ↦ rw (p, upsert_child) tt
        | inr (root, p) ↦ rw (p, upsert_child) (record_child-Known a _)
      ]

  -- A case for a desired resource, found or updated.
  desired-Known :
      (after : DesiredResource Manifest
        → ApplicationInstance Manifest
        → ApplicationInstance Manifest)
      (a : ApplicationInstance Manifest) (res : CacheResource Manifest) (manifest : Option Manifest)
      (d : Option (DesiredResource Manifest))
      → ReportsKnown (
          d >>= λ d.
          record_present k cluster_id
            (after d)
            a
            (new_present_monitored_resource k cluster_id res manifest d a.hash_salt))
  desired-Known after a res manifest none = tt
  desired-Known after a res manifest (some d) = present-Known (after d) a res manifest d

  removed-Known :
      (a : ApplicationInstance Manifest) (d : Option (DesiredResource Manifest))
      → ReportsKnown (d >>= λ d. record_missing k cluster_id a d)
  unfolding record_missing
  removed-Known a none = tt
  removed-Known a (some d) = record {
    present = tt;
    missing = (new_missing-IsRecognised k cluster_id d, tt);
    unknown = tt;
  }

  apply_change-Known :
      (manifest : Option Manifest) (change : OnResourceUpdated)
      (new_res old_res : Option (CacheResource Manifest)) (a : ApplicationInstance Manifest)
      → ReportsKnown (apply_change k cluster_id manifest change new_res old_res a)
  unfolding apply_change
  apply_change-Known manifest no_change new_res old_res a = tt
  apply_change-Known manifest desired_resource_found none old_res a = tt
  apply_change-Known manifest desired_resource_found (some res) old_res a =
      desired-Known (λ d. delete_missing_monitored_resource d.id) a res manifest
        (desired_of a (some res))
  apply_change-Known manifest desired_resource_updated none old_res a = tt
  apply_change-Known manifest desired_resource_updated (some res) old_res a =
      desired-Known (λ d b. b) a res manifest (desired_of a (some res))
  apply_change-Known manifest desired_resource_removed new_res old_res a =
      removed-Known a (desired_of a old_res)
  apply_change-Known manifest child_resource_found none old_res a = tt
  apply_change-Known manifest child_resource_found (some res) old_res a =
      upsert_child-Known a res manifest
  apply_change-Known manifest child_resource_updated none old_res a = tt
  apply_change-Known manifest child_resource_updated (some res) old_res a =
      upsert_child-Known a res manifest
  apply_change-Known manifest child_resource_removed new_res none a = tt
  apply_change-Known manifest child_resource_removed new_res (some res) a = record {
    present = tt;
    missing = tt;
    unknown = tt;
  }

  get_changes-Known :
      (resolver : Option (CacheResource Manifest → Option Manifest))
      (new_res old_res : Option (CacheResource Manifest)) (a : ApplicationInstance Manifest)
      → ReportsKnown (get_changes_for_updated_resource k cluster_id resolver new_res old_res a)
  unfolding get_changes_for_updated_resource
  get_changes-Known resolver new_res old_res a =
      apply_change-Known (new_manifest k resolver new_res)
        (calculate_resource_change k a new_res old_res) new_res old_res a

module _ (k : Kubernetes) (default_api_resources : Map TypeMeta Bool) where
  open k use {Manifest}

  event_update-All :
      (cluster_id : String) (a : ApplicationInstance Manifest)
      (r : Result String (Option (ApplicationInstanceChanges Manifest)))
      → ReportsKnown k cluster_id (some (a, r))
      → All IsReportable (event_update k default_api_resources r)
  unfolding event_update
  event_update-All cluster_id a (failed e) h = tt
  event_update-All cluster_id a (ok none) h = tt
  event_update-All cluster_id a (ok (some c)) h = (h, tt)

  changes-Known :
      (c : SharedCluster Manifest) (cluster_id : String)
      (new_res old_res : Option (CacheResource Manifest))
      (instances : Map String (ApplicationInstance Manifest))
      → SweepsKnown k default_api_resources (
          changes_for_updated_resource k default_api_resources c cluster_id new_res old_res
            instances)
  unfolding changes_for_updated_resource
  changes-Known c cluster_id new_res old_res [] = tt
  changes-Known c cluster_id new_res old_res ((id, a) ∷ instances) =
      let resolver = some (manifest_of k c) in
      let here = get_changes-Known k cluster_id resolver new_res old_res a in
      let later = changes-Known c cluster_id new_res old_res instances in
      elim (Option-cases
        (get_changes_for_updated_resource k cluster_id resolver new_res old_res a)) [
          | inl p ↦ rw (p, changes_for_updated_resource) tt
          | inr ((a', r), p) ↦
              elim (Option-cases (
                changes_for_updated_resource k default_api_resources c cluster_id new_res old_res
                  instances)) [
                    | inl q ↦ rw (p, changes_for_updated_resource, q) tt
                    | inr (rest, q) ↦
                        rw (p, changes_for_updated_resource, q)
                          (All-append IsReportable _ rest.updates
                            (event_update-All cluster_id a' r
                              (subst (λ o. ReportsKnown k cluster_id o) p here))
                            (subst (λ o. SweepsKnown k default_api_resources o) q later))
                  ]
        ]

sent_updates-All :
    {M : Type 0} (updates : List (ApplicationInstanceChanges M))
    → All IsReportable updates
    → All (λ o. IsReportable (changes_of o)) (map update updates)
sent_updates-All [] h = tt
sent_updates-All (c ∷ updates) h = (h.0, sent_updates-All updates h.1)

module _ (k : Kubernetes) (default_api_resources : Map TypeMeta Bool) {C : Type 0}
    (stopped : Bool) where
  open k use {Manifest}

  -- Each report that a cache event passes on.
  pub run_change-Known :
      (c : SharedCluster Manifest) (new_res old_res : Option (CacheResource Manifest))
      (t : Target Manifest C)
      → SendsKnown (run_change k default_api_resources stopped c new_res old_res t)
  unfolding run_change apply_resource_change send_resource_change_updates SendsKnown
  run_change-Known c new_res old_res t =
      let all =
        changes-Known k default_api_resources c t.state.cluster_id new_res old_res
          t.state.application_instances in
      elim (Option-cases (
        changes_for_updated_resource k default_api_resources c t.state.cluster_id new_res old_res
          t.state.application_instances)) [
            | inl p ↦ rw (p, run_change, apply_resource_change) tt
            | inr (swept, p) ↦
                rw (p, run_change, apply_resource_change)
                  (sent_updates-All swept.updates
                    (subst (λ o. SweepsKnown k default_api_resources o) p all))
          ]
