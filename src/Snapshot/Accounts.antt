-- ===== src/Snapshot/Accounts.antt =====
-- What `getMonitoredResources` of internal/cluster/shared_cluster.go says of each desired resource.
use kubernetes_monitor.Prelude.{
  ◌≡◌, refl, ap, ap₂, ◌∙◌, subst, String, Bool, false, not, Option, none, some, List, [], map,
  Result, ok, failed, ◌&&◌, ◌||◌, string_eq, is_some, ◌>>=◌, any, inl, inr, arith,
}
use kubernetes_monitor.Prelude.Sets.{contains}
use kubernetes_monitor.Prelude.Maps.{Map, values, lookup}
use kubernetes_monitor.Resources.{
  Kubernetes, ResourceKey, DesiredResource, UnknownMonitoredResource, key_eq,
  PresentMonitoredResource,
}
use kubernetes_monitor.Snapshot.Connection.{SharedCluster}
use kubernetes_monitor.Snapshot.Scan.{
  MonitoredResources, Found, mark_unknown, unknown_message, record_all, target_objects,
  resource_is_desired,
}
use kubernetes_monitor.Snapshot.Missing.{
  Absent, account_present, account_unknown, lacks_permission, finish, snapshot_of,
  get_monitored_resources, discover,
}
use kubernetes_monitor.Snapshot.Marks.{
  present_id, unknown_id, mark_unknown-IsFiled, lookup-mark_unknown, missing-settle, unknown-settle,
}
use kubernetes_monitor.Snapshot.Filed.{
  After, IsDesired, record_all-IsDesired, no_resources-IsDesired,
}
use kubernetes_monitor.Snapshot.Shown.{
  Files, Among, IsShown, is_desired_as, is_child_at, record_all-Files, any-discovered,
  Among-discovered,
}
use kubernetes_monitor.Snapshot.Names.{
  desired_with, Once, named, any-values, contains-account_present, contains-account_unknown,
  named-none, named_of_Once, id-desired_with,
}

module _ (k : Kubernetes) (cluster_id : String) (c : SharedCluster k.Manifest)
    (desired : Map ResourceKey (DesiredResource k.Manifest)) (salt : String) where
  open k use {Manifest, manifest_key}

  -- What the monitor reports of each desired resource, that it reports nothing else as desired, and what
  -- it reports as children, where the hierarchy of these live objects is what the cluster holds.
  pub record Accounts (healthy : Bool) (live : List Manifest) (r : MonitoredResources Manifest)
      : Type 0 where
    pub present :
        (id : String)
        → is_some (lookup id r.present)
          ≡ any
              (λ entry. is_desired_as k cluster_id c desired salt id entry.0)
              (c.iterate_hierarchy (map manifest_key live))
    pub shown :
        (id : String) (p : PresentMonitoredResource Manifest)
        → lookup id r.present ≡ some p
        → Among
            (λ entry. IsShown k cluster_id c desired salt id p entry.0)
            (c.iterate_hierarchy (map manifest_key live))
    pub child :
        (key : ResourceKey)
        → is_some (lookup key r.child)
          ≡ any
              (λ entry. is_child_at k cluster_id c desired salt key entry.0)
              (c.iterate_hierarchy (map manifest_key live))
    pub missing :
        (id : String) (d : DesiredResource Manifest)
        → desired_with id (values desired) ≡ some d
        → is_some (lookup id r.missing) ≡ (
            not (is_some (lookup id r.present))
            && (not (is_some (unknown_message k c healthy d)) && not (lacks_permission k c d)))
    pub unknown :
        (id : String) (d : DesiredResource Manifest)
        → desired_with id (values desired) ≡ some d
        → is_some (lookup id r.unknown) ≡ (
            is_some (unknown_message k c healthy d)
            || (not (is_some (lookup id r.present)) && lacks_permission k c d))
    pub undesired :
        (id : String)
        → desired_with id (values desired) ≡ none
        → (is_some (lookup id r.present)
            || (is_some (lookup id r.missing) || is_some (lookup id r.unknown)))
          ≡ false

  abbrev no_resources : Found Manifest
  no_resources = record { present = []; child = [] }

  module _ (healthy : Bool) (live : List Manifest) (found : Found Manifest)
      (h : IsDesired k cluster_id c desired salt found)
      (files : (id : String)
        → Files k cluster_id c desired salt id (discover k c live) no_resources found)
      (once : Once (values desired)) where
    abbrev marked : Map String UnknownMonitoredResource
    marked = mark_unknown k cluster_id c healthy (values desired) []

    abbrev unsettled : Absent
    unsettled = record { missing = []; unknown = marked }

    abbrev accounted : List String
    accounted = account_unknown (values marked) (account_present (values found.present) [])

    contains-accounted :
        (id : String)
        → contains accounted id ≡ (
            is_some (lookup id found.present)
            || named (λ d. is_some (unknown_message k c healthy d)) id (values desired))
    unfolding contains lookup
    contains-accounted id =
        contains-account_unknown id (values marked) (account_present (values found.present) [])
        ∙ ap₂ ◌||◌
            (contains-account_present id (values found.present) []
              ∙ any-values present_id id found.present h.filed)
            (any-values unknown_id id marked
                (mark_unknown-IsFiled k cluster_id c healthy (values desired) [] tt)
              ∙ lookup-mark_unknown k cluster_id c healthy id (values desired) [])

    -- The same, for a resource that is desired and for one that is not.
    accounts_for :
        (id : String) (d : DesiredResource Manifest)
        → desired_with id (values desired) ≡ some d
        → contains accounted d.id
          ≡ (is_some (lookup id found.present) || is_some (unknown_message k c healthy d))
    accounts_for id d e =
        ap (contains accounted) (id-desired_with id d (values desired) e)
        ∙ contains-accounted id
        ∙ ap (◌||◌ (is_some (lookup id found.present)))
            (named_of_Once _ id d (values desired) once e)

    finish_missing :
        (id : String) (d : DesiredResource Manifest)
        → desired_with id (values desired) ≡ some d
        → is_some (lookup id (finish k cluster_id c (values desired) marked found).missing) ≡ (
            not (is_some (lookup id found.present))
            && (not (is_some (unknown_message k c healthy d)) && not (lacks_permission k c d)))
    unfolding finish lookup
    finish_missing id d e =
        missing-settle k cluster_id c accounted id (values desired) unsettled
        ∙ named_of_Once _ id d (values desired) once e
        ∙ ground (arith, accounts_for id d e)

    finish_unknown :
        (id : String) (d : DesiredResource Manifest)
        → desired_with id (values desired) ≡ some d
        → is_some (lookup id (finish k cluster_id c (values desired) marked found).unknown) ≡ (
            is_some (unknown_message k c healthy d)
            || (not (is_some (lookup id found.present)) && lacks_permission k c d))
    unfolding finish lookup
    finish_unknown id d e =
        unknown-settle k cluster_id c accounted id (values desired) unsettled
        ∙ ap₂ ◌||◌
            (lookup-mark_unknown k cluster_id c healthy id (values desired) []
              ∙ named_of_Once _ id d (values desired) once e)
            (named_of_Once _ id d (values desired) once e)
        ∙ ground (arith, accounts_for id d e)

    finish_undesired :
        (id : String)
        → desired_with id (values desired) ≡ none
        → (is_some (lookup id found.present)
            || (is_some (lookup id (finish k cluster_id c (values desired) marked found).missing)
                || is_some
                    (lookup id (finish k cluster_id c (values desired) marked found).unknown)))
          ≡ false
    unfolding finish lookup
    finish_undesired id e = ground (
      arith,
      h.desires id,
      missing-settle k cluster_id c accounted id (values desired) unsettled
          ∙ named-none _ id (values desired) e,
      unknown-settle k cluster_id c accounted id (values desired) unsettled
          ∙ ap₂ ◌||◌
              (lookup-mark_unknown k cluster_id c healthy id (values desired) []
                ∙ named-none _ id (values desired) e)
              (named-none _ id (values desired) e),
    )

    finish-Accounts : Accounts healthy live (finish k cluster_id c (values desired) marked found)
    unfolding finish discover lookup
    finish-Accounts = record {
      present = λ id.
          (files id).present
          ∙ any-discovered (is_desired_as k cluster_id c desired salt id)
              (c.iterate_hierarchy (map manifest_key live));
      shown = λ id p e. elim ((files id).shown p e) [
        | inl before ↦ absurd (cc)
        | inr among ↦
            Among-discovered (λ res. IsShown k cluster_id c desired salt id p res)
              (c.iterate_hierarchy (map manifest_key live)) among
      ];
      child = λ key.
          (files "").child key
          ∙ any-discovered (is_child_at k cluster_id c desired salt key)
              (c.iterate_hierarchy (map manifest_key live));
      missing = finish_missing;
      unknown = finish_unknown;
      undesired = finish_undesired;
    }

  abbrev completed : Bool → Found Manifest → Result String (MonitoredResources Manifest)
  completed healthy found = ok (
      finish k cluster_id c (values desired)
        (mark_unknown k cluster_id c healthy (values desired) []) found)

  finished-Accounts :
      (healthy : Bool) (live : List Manifest) (o : Option (Found Manifest))
      (r : MonitoredResources Manifest)
      → Once (values desired)
      → After (IsDesired k cluster_id c desired salt) o
      → ((id : String)
          → After (Files k cluster_id c desired salt id (discover k c live) no_resources) o)
      → (o >>= (λ found. some (completed healthy found))) ≡ some (ok r)
      → Accounts healthy live r
  finished-Accounts healthy live none r once h files e = cc
  finished-Accounts healthy live (some found) r once h files e =
      subst (Accounts healthy live) (cc) (finish-Accounts healthy live found h files once)

  -- The engine has answered with these live objects, and the report accounts for them.
  abbrev pub Answers : Bool → Result String (List Manifest) → MonitoredResources Manifest → Type 0
  Answers healthy answer r = (live : List Manifest) × (answer ≡ ok live) × Accounts healthy live r

  snapshot-Answers :
      (healthy : Bool) (answer : Result String (List Manifest)) (r : MonitoredResources Manifest)
      → Once (values desired)
      → snapshot_of k cluster_id c desired salt
          (mark_unknown k cluster_id c healthy (values desired) [])
          answer
        ≡ some (ok r)
      → Answers healthy answer r
  unfolding snapshot_of
  snapshot-Answers healthy (failed e) r once h = cc
  snapshot-Answers healthy (ok live) r once h = (
    live,
    refl,
    finished-Accounts healthy live
        (record_all k cluster_id c desired salt (discover k c live) no_resources) r once
        (record_all-IsDesired k cluster_id c desired salt _ _
          (no_resources-IsDesired k cluster_id c desired salt))
        (λ id. record_all-Files k cluster_id c desired salt id (discover k c live) no_resources) h,
  )

  -- When no two desired resources share an id, a snapshot that succeeds has had an answer from the
  -- engine, and accounts for every desired resource: as present exactly if a resource of the
  -- hierarchy of the engine's live objects has its key, and then with the name, namespace, uid and
  -- health of such a resource; as unknown if the first loop has a reason or if it is not present and
  -- may not be listed; as missing exactly if it is neither present nor unknown. It reports no id that
  -- is not desired as present, missing or unknown. Its children are exactly the other resources of
  -- that hierarchy, by the group, kind, namespace and name of their references.
  pub get_monitored_resources-Accounts :
      (healthy : Bool) (r : MonitoredResources Manifest)
      → Once (values desired)
      → get_monitored_resources k cluster_id c desired salt healthy ≡ some (ok r)
      → Answers healthy
          (c.get_managed_live_objs
            (target_objects k c
              (mark_unknown k cluster_id c healthy (values desired) [])
              (values desired))
            (resource_is_desired k desired))
          r
  unfolding get_monitored_resources
  get_monitored_resources-Accounts healthy r once h = snapshot-Answers healthy _ r once h
