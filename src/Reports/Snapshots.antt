-- ===== src/Reports/Snapshots.antt =====
-- The sync statuses in a snapshot (internal/cluster/shared_cluster.go), whatever the cluster answers.
use kubernetes_monitor.Prelude.{
  String, Bool, Option, none, some, List, [], ◌∷◌, Result, ok, failed, All, inl, inr, string_eq,
  Bool-cases, Option-cases, subst,
}
use kubernetes_monitor.Prelude.Maps.{Map, values, lookup}
use kubernetes_monitor.Prelude.Sets.{contains}
use kubernetes_monitor.Resources.{
  Kubernetes, ResourceKey, DesiredResource, PresentMonitoredResource, MissingMonitoredResource,
  UnknownMonitoredResource, new_present_monitored_resource, new_child_monitored_resource,
  new_unknown_monitored_resource, key_eq,
}
use kubernetes_monitor.Instance.Owners.{get_root_parent_resource}
use kubernetes_monitor.Snapshot.{
  SharedCluster, MonitoredResources, Found, DiscoveredResource, Absent, mark_one, mark_unknown,
  unknown_message, record_child, record_as, record_discovered, record_all, manifest_of, settle_one,
  settle, lacks_permission, permission_message, finish, snapshot_of, discover,
  get_monitored_resources,
}
use kubernetes_monitor.Protos.Codes.{IsRecognised}
use kubernetes_monitor.Reports.Statuses.{
  get_sync_status-IsRecognised, new_unknown-IsRecognised, new_missing-IsRecognised, All-insert,
}

abbrev pub PresentKnown : {M : Type 0} → List (PresentMonitoredResource M) → Type 0
PresentKnown rs = All (λ r. IsRecognised r.sync_status) rs

abbrev pub MissingKnown : List MissingMonitoredResource → Type 0
MissingKnown rs = All (λ r. IsRecognised r.sync_status) rs

abbrev pub UnknownKnown : List UnknownMonitoredResource → Type 0
UnknownKnown rs = All (λ r. IsRecognised r.sync_status) rs

-- The sync status of each resource is one that the monitor knows.
abbrev pub AreKnown : {M : Type 0} → MonitoredResources M → Type 0
AreKnown r =
    PresentKnown (values r.present)
    × MissingKnown (values r.missing)
    × UnknownKnown (values r.unknown)

module _ (k : Kubernetes) (cluster_id : String) where
  open k use {Manifest}

  mark_one-Known :
      (d : DesiredResource Manifest) (message : Option String)
      (unknown : Map String UnknownMonitoredResource)
      → UnknownKnown (values unknown)
      → UnknownKnown (values (mark_one k cluster_id d message unknown))
  unfolding mark_one
  mark_one-Known d none unknown h = h
  mark_one-Known d (some message) unknown h =
      All-insert (λ r. IsRecognised r.sync_status) d.id
        (new_unknown_monitored_resource k cluster_id d message) unknown
        (new_unknown-IsRecognised k cluster_id d message) h

  mark_unknown-Known :
      (c : SharedCluster Manifest) (healthy : Bool) (ds : List (DesiredResource Manifest))
      (unknown : Map String UnknownMonitoredResource)
      → UnknownKnown (values unknown)
      → UnknownKnown (values (mark_unknown k cluster_id c healthy ds unknown))
  unfolding mark_unknown
  mark_unknown-Known c healthy [] unknown h = h
  mark_unknown-Known c healthy (d ∷ ds) unknown h =
      mark_unknown-Known c healthy ds
        (mark_one k cluster_id d (unknown_message k c healthy d) unknown)
        (mark_one-Known d (unknown_message k c healthy d) unknown h)

  abbrev Finds : Option (Found Manifest) → Type 0
  Finds none = Unit {0}
  Finds (some found) = PresentKnown (values found.present)

  record_child-Known :
      (salt : String) (d : DiscoveredResource Manifest) (manifest : Option Manifest)
      (root : Option String) (found : Found Manifest)
      → PresentKnown (values found.present)
      → Finds (record_child k cluster_id salt d manifest root found)
  unfolding record_child new_child_monitored_resource
  record_child-Known salt d manifest none found h = tt
  record_child-Known salt d manifest (some root) found h = h

  record_as-Known :
      (salt : String) (d : DiscoveredResource Manifest) (manifest : Option Manifest)
      (desired : Option (DesiredResource Manifest)) (found : Found Manifest)
      → PresentKnown (values found.present)
      → Finds (record_as k cluster_id salt d manifest desired found)
  unfolding record_as new_present_monitored_resource
  record_as-Known salt d manifest none found h =
      record_child-Known salt d manifest (get_root_parent_resource d.owner_id found.child) found h
  record_as-Known salt d manifest (some desired) found h =
      All-insert (λ r. IsRecognised r.sync_status) desired.id _ found.present
        (get_sync_status-IsRecognised k _ desired) h

  record_all-Known :
      (c : SharedCluster Manifest) (desired : Map ResourceKey (DesiredResource Manifest))
      (salt : String) (ds : List (DiscoveredResource Manifest)) (found : Found Manifest)
      → PresentKnown (values found.present)
      → Finds (record_all k cluster_id c desired salt ds found)
  unfolding record_all record_discovered
  record_all-Known c desired salt [] found h = h
  record_all-Known c desired salt (d ∷ ds) found h =
      let manifest = manifest_of k c d.resource in
      let wanted = lookup d.resource.info.resource_key desired in
      let here = record_as-Known salt d manifest wanted found h in
      elim (Option-cases (record_as k cluster_id salt d manifest wanted found)) [
        | inl p ↦ rw (p, record_all) tt
        | inr (found', p) ↦
            rw (p, record_all)
              (record_all-Known c desired salt ds found' (subst (λ o. Finds o) p here))
      ]

  -- What the last loop holds of its two maps.
  abbrev Settles : Absent → Type 0
  Settles s = MissingKnown (values s.missing) × UnknownKnown (values s.unknown)

  settle_one-Known :
      (c : SharedCluster Manifest) (accounted : List String) (d : DesiredResource Manifest)
      (s : Absent)
      → Settles s
      → Settles (settle_one k cluster_id c accounted d s)
  unfolding settle_one
  settle_one-Known c accounted d s h = elim (Bool-cases (contains accounted d.id)) [
    | inl p ↦ rw p h
    | inr p ↦ elim (Bool-cases (lacks_permission k c d)) [
      | inl q ↦
          rw (p, q)
            (
              h.0,
              All-insert (λ r. IsRecognised r.sync_status) d.id _ s.unknown
                  (new_unknown-IsRecognised k cluster_id d (permission_message k d)) h.1,
            )
      | inr q ↦
          rw (p, q)
            (
              All-insert (λ r. IsRecognised r.sync_status) d.id _ s.missing
                  (new_missing-IsRecognised k cluster_id d) h.0,
              h.1,
            )
    ]
  ]

  settle-Known :
      (c : SharedCluster Manifest) (accounted : List String) (ds : List (DesiredResource Manifest))
      (s : Absent)
      → Settles s
      → Settles (settle k cluster_id c accounted ds s)
  unfolding settle
  settle-Known c accounted [] s h = h
  settle-Known c accounted (d ∷ ds) s h =
      settle-Known c accounted ds (settle_one k cluster_id c accounted d s)
        (settle_one-Known c accounted d s h)

  finish-Known :
      (c : SharedCluster Manifest) (ds : List (DesiredResource Manifest))
      (unknown : Map String UnknownMonitoredResource) (found : Found Manifest)
      → UnknownKnown (values unknown)
      → PresentKnown (values found.present)
      → AreKnown (finish k cluster_id c ds unknown found)
  unfolding finish
  finish-Known c ds unknown found u h =
      let (missing, unknown) = settle-Known c _ ds _ (tt, u) in (h, missing, unknown)

  abbrev pub Answers : Option (Result String (MonitoredResources Manifest)) → Type 0
  Answers none = Unit {0}
  Answers (some (failed e)) = Unit {0}
  Answers (some (ok r)) = AreKnown r

  snapshot_of-Known :
      (c : SharedCluster Manifest) (desired : Map ResourceKey (DesiredResource Manifest))
      (salt : String) (unknown : Map String UnknownMonitoredResource)
      (live : Result String (List Manifest))
      → UnknownKnown (values unknown)
      → Answers (snapshot_of k cluster_id c desired salt unknown live)
  unfolding snapshot_of
  snapshot_of-Known c desired salt unknown (failed e) u = tt
  snapshot_of-Known c desired salt unknown (ok live) u =
      let ds = discover k c live in
      let start : Found Manifest = record { present = []; child = [] } in
      let all = record_all-Known c desired salt ds start tt in
      elim (Option-cases (record_all k cluster_id c desired salt ds start)) [
        | inl p ↦ rw (p, snapshot_of) tt
        | inr (found, p) ↦
            rw (p, snapshot_of)
              (finish-Known c (values desired) unknown found u (subst (λ o. Finds o) p all))
      ]

  pub get_monitored_resources-Known :
      (c : SharedCluster Manifest) (desired : Map ResourceKey (DesiredResource Manifest))
      (salt : String) (healthy : Bool)
      → Answers (get_monitored_resources k cluster_id c desired salt healthy)
  unfolding get_monitored_resources
  get_monitored_resources-Known c desired salt healthy =
      snapshot_of-Known c desired salt _ _ (mark_unknown-Known c healthy (values desired) [] tt)
