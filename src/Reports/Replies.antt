-- ===== src/Reports/Replies.antt =====
-- The changes that the operations of internal/cluster/cluster_state.go and cluster.go pass on: those of
-- a command that rescans, of a deletion, and of a sweep.
use kubernetes_monitor.Prelude.{
  String, Bool, Option, none, some, List, [], ◌∷◌, Result, ok, failed, All, All-append, inl, inr,
  string_eq, Option-cases, subst,
}
use kubernetes_monitor.Prelude.Maps.{Map, values}
use kubernetes_monitor.Resources.{Kubernetes, TypeMeta, ApplicationInstanceChanges}
use kubernetes_monitor.Instance.{
  ApplicationInstance, monitored_resource_changes, replace_monitored_resources, resolve_namespaces,
}
use kubernetes_monitor.Snapshot.{SharedCluster, MonitoredResources, namespace_map_with_health}
use kubernetes_monitor.ClusterState.{Target, incoming_changes, replaced_from, replace_from_cluster}
use kubernetes_monitor.ClusterState.Sweep.{Swept, sweep, sweep_update, monitored_resource_updates}
use kubernetes_monitor.Targets.{Effect, changes_of, ask, application_instance_updates}
use kubernetes_monitor.Protos.Codes.{IsRecognised}
use kubernetes_monitor.Protos.Totals.{IsReportable}
use kubernetes_monitor.Reports.Statuses.{All-filter}
use kubernetes_monitor.Reports.Snapshots.{
  PresentKnown, MissingKnown, UnknownKnown, Answers, get_monitored_resources-Known,
}

-- An instance holds only sync statuses that the monitor knows.
abbrev pub HoldsKnown : {M : Type 0} → ApplicationInstance M → Type 0
HoldsKnown a =
    PresentKnown (values a.present_monitored_resources)
    × MissingKnown (values a.missing_monitored_resources)
    × UnknownKnown (values a.unknown_monitored_resources)

-- The report of a whole instance, and that of what belongs to some incoming resources.
pub monitored_resource_changes-IsReportable :
    {M : Type 0} (cluster_id : String) (a : ApplicationInstance M)
    → HoldsKnown a
    → IsReportable (monitored_resource_changes cluster_id a)
unfolding monitored_resource_changes
monitored_resource_changes-IsReportable cluster_id a (present, missing, unknown) = record {
  present = present;
  missing = missing;
  unknown = unknown;
}

pub incoming_changes-IsReportable :
    {M : Type 0} (cluster_id : String) (ids : List String) (a : ApplicationInstance M)
    → HoldsKnown a
    → IsReportable (incoming_changes cluster_id ids a)
unfolding incoming_changes
incoming_changes-IsReportable cluster_id ids a (present, missing, unknown) = record {
  present = All-filter (λ r. IsRecognised r.sync_status) _ _ present;
  missing = All-filter (λ r. IsRecognised r.sync_status) _ _ missing;
  unknown = All-filter (λ r. IsRecognised r.sync_status) _ _ unknown;
}

-- Each report that an operation passes on.
unfoldable pub SendsKnown : {M S : Type 0} → Effect M S → Type 0
SendsKnown none = Unit {0}
SendsKnown (some (s, (sent, err))) = All (λ o. IsReportable (changes_of o)) sent

abbrev pub RepliesKnown :
    {M S : Type 0} → Option (S × Result String (ApplicationInstanceChanges M)) → Type 0
RepliesKnown none = Unit {0}
RepliesKnown (some (s, failed e)) = Unit {0}
RepliesKnown (some (s, ok c)) = IsReportable c

module _ (k : Kubernetes) (default_api_resources : Map TypeMeta Bool) where
  open k use {Manifest}

  -- What a snapshot makes of an instance, where the snapshot succeeds.
  abbrev pub ReplacesKnown : Option (ApplicationInstance Manifest × Option String) → Type 0
  ReplacesKnown none = Unit {0}
  ReplacesKnown (some (a, some e)) = Unit {0}
  ReplacesKnown (some (a, none)) = HoldsKnown a

  replaced_from-Known :
      (cluster_id : String) (a : ApplicationInstance Manifest)
      (o : Option (Result String (MonitoredResources Manifest)))
      → Answers k cluster_id o
      → ReplacesKnown (replaced_from k default_api_resources a o)
  unfolding replaced_from replace_monitored_resources
  replaced_from-Known cluster_id a none h = tt
  replaced_from-Known cluster_id a (some (failed e)) h = tt
  replaced_from-Known cluster_id a (some (ok r)) h = h

  pub replace_from_cluster-Known :
      (c : SharedCluster Manifest) (cluster_id : String) (a : ApplicationInstance Manifest)
      → ReplacesKnown (replace_from_cluster k default_api_resources c cluster_id a)
  unfolding replace_from_cluster
  replace_from_cluster-Known c cluster_id a =
      let (namespaced_map, healthy) = namespace_map_with_health c default_api_resources in
      let resolved = (resolve_namespaces k namespaced_map a).0 in
      replaced_from-Known cluster_id resolved _ (
        get_monitored_resources-Known k cluster_id c resolved.desired_resources resolved.hash_salt
          healthy)

  sweep_update-All :
      (cluster_id : String) (a : ApplicationInstance Manifest) (err : Option String)
      → ReplacesKnown (some (a, err))
      → All IsReportable (sweep_update k default_api_resources cluster_id a err)
  unfolding sweep_update
  sweep_update-All cluster_id a (some e) h = tt
  sweep_update-All cluster_id a none h =
      (monitored_resource_changes-IsReportable cluster_id a h, tt)

  abbrev pub SweepsKnown : Option (Swept Manifest) → Type 0
  SweepsKnown none = Unit {0}
  SweepsKnown (some s) = All IsReportable s.updates

  pub sweep-Known :
      (c : SharedCluster Manifest) (cluster_id : String)
      (instances : Map String (ApplicationInstance Manifest))
      → SweepsKnown (sweep k default_api_resources c cluster_id instances)
  unfolding sweep
  sweep-Known c cluster_id [] = tt
  sweep-Known c cluster_id ((id, a) ∷ instances) =
      let here = replace_from_cluster-Known c cluster_id a in
      let later = sweep-Known c cluster_id instances in
      elim (Option-cases (replace_from_cluster k default_api_resources c cluster_id a)) [
        | inl p ↦ rw (p, sweep) tt
        | inr ((a', err), p) ↦
            elim (Option-cases (sweep k default_api_resources c cluster_id instances)) [
              | inl q ↦ rw (p, sweep, q) tt
              | inr (rest, q) ↦
                  rw (p, sweep, q)
                    (All-append IsReportable _ rest.updates
                      (sweep_update-All cluster_id a' err (subst (λ o. ReplacesKnown o) p here))
                      (subst (λ o. SweepsKnown o) q later))
            ]
      ]

-- What a sweep of one target reports.
abbrev pub updates_of :
    {M S : Type 0}
    → Option (S × Result String (List (ApplicationInstanceChanges M)))
    → List (ApplicationInstanceChanges M)
updates_of none = []
updates_of (some (s, failed e)) = []
updates_of (some (s, ok updates)) = updates

module _ (k : Kubernetes) (default_api_resources : Map TypeMeta Bool) {C : Type 0}
    (stopped : Bool) where
  open k use {Manifest}

  pub swept-All :
      (refused : Option String) (c : SharedCluster Manifest) (t : Target Manifest C)
      → All IsReportable
          (updates_of (application_instance_updates k default_api_resources stopped refused c t))
  unfolding application_instance_updates ask monitored_resource_updates
  swept-All (some refusal) c t = tt
  swept-All none c t =
      let instances = t.state.application_instances in
      let all = sweep-Known k default_api_resources c t.state.cluster_id instances in
      elim (Option-cases (sweep k default_api_resources c t.state.cluster_id instances)) [
        | inl p ↦ rw (p, application_instance_updates, monitored_resource_updates, ask) tt
        | inr (swept, p) ↦
            rw (p, application_instance_updates, monitored_resource_updates, ask)
              (subst (λ o. SweepsKnown k default_api_resources o) p all)
      ]
