-- ===== src/Snapshot/Marks.antt =====
-- What the loops of `getMonitoredResources` in internal/cluster/shared_cluster.go over the desired
-- resources leave.
use kubernetes_monitor.Prelude.{
  ◌≡◌, refl, String, Bool, false, not, Option, none, some, List, [], ◌∷◌, ◌&&◌, ◌||◌, ◌==◌,
  string_eq, if◌then◌else◌, is_some, arith,
}
use kubernetes_monitor.Prelude.Sets.{contains}
use kubernetes_monitor.Prelude.Maps.{Map, lookup, lookup-insert}
use kubernetes_monitor.Resources.{
  Kubernetes, DesiredResource, PresentMonitoredResource, UnknownMonitoredResource,
  new_missing_monitored_resource, new_unknown_monitored_resource, key_eq,
}
use kubernetes_monitor.Snapshot.Connection.{SharedCluster}
use kubernetes_monitor.Snapshot.Scan.{mark_one, mark_unknown, unknown_message}
use kubernetes_monitor.Snapshot.Missing.{
  Absent, lacks_permission, permission_message, settle_one, settle,
}
use kubernetes_monitor.Snapshot.Names.{IsFiled, insert-IsFiled, named}

abbrev pub present_id : {M : Type 0} → PresentMonitoredResource M → String
present_id r = r.desired_resource_id

abbrev pub unknown_id : UnknownMonitoredResource → String
unknown_id r = r.desired_resource_id

module _ (k : Kubernetes) (cluster_id : String) (c : SharedCluster k.Manifest) where
  open k use {Manifest}

  mark_one-IsFiled :
      (d : DesiredResource Manifest) (message : Option String)
      (u : Map String UnknownMonitoredResource)
      → IsFiled unknown_id u
      → IsFiled unknown_id (mark_one k cluster_id d message u)
  unfolding mark_one new_unknown_monitored_resource
  mark_one-IsFiled d none u h = h
  mark_one-IsFiled d (some message) u h = insert-IsFiled unknown_id d.id _ u refl h

  pub mark_unknown-IsFiled :
      (healthy : Bool) (ds : List (DesiredResource Manifest))
      (u : Map String UnknownMonitoredResource)
      → IsFiled unknown_id u
      → IsFiled unknown_id (mark_unknown k cluster_id c healthy ds u)
  unfolding mark_unknown
  mark_unknown-IsFiled healthy [] u h = h
  mark_unknown-IsFiled healthy (d ∷ ds) u h =
      mark_unknown-IsFiled healthy ds _ (mark_one-IsFiled d (unknown_message k c healthy d) u h)

  lookup-mark_one :
      (id : String) (d : DesiredResource Manifest) (message : Option String)
      (u : Map String UnknownMonitoredResource)
      → is_some (lookup id (mark_one k cluster_id d message u))
        ≡ (is_some (lookup id u) || (if d.id == id then is_some message else false))
  unfolding mark_one
  lookup-mark_one id d none u = ground arith
  lookup-mark_one id d (some message) u =
      ground
        (arith, lookup-insert d.id id (new_unknown_monitored_resource k cluster_id d message) u)

  -- The first loop marks the resources that have a message.
  pub lookup-mark_unknown :
      (healthy : Bool) (id : String) (ds : List (DesiredResource Manifest))
      (u : Map String UnknownMonitoredResource)
      → is_some (lookup id (mark_unknown k cluster_id c healthy ds u))
        ≡ (is_some (lookup id u) || named (λ d. is_some (unknown_message k c healthy d)) id ds)
  unfolding mark_unknown
  lookup-mark_unknown healthy id [] u = ground arith
  lookup-mark_unknown healthy id (d ∷ ds) u = ground (
    arith,
    lookup-mark_unknown healthy id ds (mark_one k cluster_id d (unknown_message k c healthy d) u),
    lookup-mark_one id d (unknown_message k c healthy d) u,
  )

  missing-settle_one :
      (accounted : List String) (id : String) (d : DesiredResource Manifest) (s : Absent)
      → is_some (lookup id (settle_one k cluster_id c accounted d s).missing) ≡ (
          is_some (lookup id s.missing)
          || (if d.id == id
              then not (contains accounted d.id) && not (lacks_permission k c d)
              else false))
  unfolding settle_one
  missing-settle_one accounted id d s =
      ground
        (arith, lookup-insert d.id id (new_missing_monitored_resource k cluster_id d) s.missing)

  pub missing-settle :
      (accounted : List String) (id : String) (ds : List (DesiredResource Manifest)) (s : Absent)
      → is_some (lookup id (settle k cluster_id c accounted ds s).missing) ≡ (
          is_some (lookup id s.missing)
          || named (λ d. not (contains accounted d.id) && not (lacks_permission k c d)) id ds)
  unfolding settle
  missing-settle accounted id [] s = ground arith
  missing-settle accounted id (d ∷ ds) s = ground (
    arith,
    missing-settle accounted id ds (settle_one k cluster_id c accounted d s),
    missing-settle_one accounted id d s,
  )

  unknown-settle_one :
      (accounted : List String) (id : String) (d : DesiredResource Manifest) (s : Absent)
      → is_some (lookup id (settle_one k cluster_id c accounted d s).unknown) ≡ (
          is_some (lookup id s.unknown)
          || (if d.id == id
              then not (contains accounted d.id) && lacks_permission k c d
              else false))
  unfolding settle_one
  unknown-settle_one accounted id d s = ground (
    arith,
    lookup-insert d.id id (new_unknown_monitored_resource k cluster_id d (permission_message k d))
        s.unknown,
  )

  pub unknown-settle :
      (accounted : List String) (id : String) (ds : List (DesiredResource Manifest)) (s : Absent)
      → is_some (lookup id (settle k cluster_id c accounted ds s).unknown) ≡ (
          is_some (lookup id s.unknown)
          || named (λ d. not (contains accounted d.id) && lacks_permission k c d) id ds)
  unfolding settle
  unknown-settle accounted id [] s = ground arith
  unknown-settle accounted id (d ∷ ds) s = ground (
    arith,
    unknown-settle accounted id ds (settle_one k cluster_id c accounted d s),
    unknown-settle_one accounted id d s,
  )
