-- ===== src/Snapshot/Returns.antt =====
-- `getMonitoredResources` of internal/cluster/shared_cluster.go returns when the hierarchy comes parents
-- first.
use kubernetes_monitor.Prelude.{
  ◌≡◌, refl, sym, ap, subst, ◌∙◌, String, Bool, true, false, Option, none, some, List, [], ◌∷◌,
  ◌++◌, Result, ok, failed, All, ◌==◌, string_eq, if◌then◌else◌, arith, ◌>>=◌,
}
use kubernetes_monitor.Prelude.Maps.{Map, values, lookup, insert, lookup-insert}
use kubernetes_monitor.Resources.{
  Kubernetes, ResourceKey, key_eq, DesiredResource, ChildMonitoredResource,
  UnknownMonitoredResource, child_key, new_child_monitored_resource, new_present_monitored_resource,
}
use kubernetes_monitor.Instance.Owners.{get_root_parent_resource, climb, owner_of}
use kubernetes_monitor.Instance.Returns.{owns, Returns, insert-Returns, values-insert_absent}
use kubernetes_monitor.Snapshot.Connection.{SharedCluster}
use kubernetes_monitor.Snapshot.Scan.{
  mark_unknown, MonitoredResources, Found, DiscoveredResource, record_child, record_as,
  record_discovered, record_all, file_child, file_present, manifest_of,
}
use kubernetes_monitor.Snapshot.Missing.{discover, finish, snapshot_of, get_monitored_resources}

module _ (k : Kubernetes) where
  open k use {Manifest, reference_gvk}

  -- The key under which a discovered resource would be recorded as a child.
  abbrev pub key_of : DiscoveredResource Manifest → ResourceKey
  key_of d = record {
    group = (reference_gvk d.resource.ref).group;
    kind = (reference_gvk d.resource.ref).kind;
    namespace = d.resource.ref.namespace;
    name = d.resource.ref.name;
  }

  -- No resource owns itself, and none owns one that came before it or has the key of one.
  abbrev pub ParentsFirst : List (DiscoveredResource Manifest) → Type 0
  ParentsFirst [] = Unit {0}
  ParentsFirst (d ∷ ds) =
      ((d.owner_id == d.resource.ref.uid) ≡ false)
      × (All (λ e. ((key_of d == key_of e) ≡ false) × ((d.owner_id == e.resource.ref.uid) ≡ false))
            ds
          × ParentsFirst ds)

  -- A resource that can be recorded next.
  abbrev Fits :
      Map ResourceKey (ChildMonitoredResource Manifest) → DiscoveredResource Manifest → Type 0
  Fits children e =
      (lookup (key_of e) children ≡ none) × (owns e.resource.ref.uid (values children) ≡ false)

  owns-append :
      (id : String) (cs : List (ChildMonitoredResource Manifest))
      (c : ChildMonitoredResource Manifest)
      → owns id (cs ++ c ∷ []) ≡ (if owns id cs then true else (c.owner_id == id))
  owns-append id [] c = ground arith
  owns-append id (d ∷ cs) c = ground (arith, owns-append id cs c)

  insert-Fits :
      (d : DiscoveredResource Manifest) (c : ChildMonitoredResource Manifest)
      (children : Map ResourceKey (ChildMonitoredResource Manifest))
      (ds : List (DiscoveredResource Manifest))
      → c.owner_id ≡ d.owner_id
      → lookup (key_of d) children ≡ none
      → All
          (λ e. ((key_of d == key_of e) ≡ false) × ((d.owner_id == e.resource.ref.uid) ≡ false))
          ds
      → All (Fits children) ds
      → All (Fits (insert (key_of d) c children)) ds
  insert-Fits d c children [] own absent apart fits = tt
  insert-Fits d c children (e ∷ ds) own absent apart fits = (
    (
      lookup-insert (key_of d) (key_of e) c children ∙ ground (arith, apart.0.0, fits.0.0),
      ap (owns e.resource.ref.uid) (values-insert_absent (key_of d) c children absent)
          ∙ owns-append e.resource.ref.uid (values children) c
          ∙ ground (arith, apart.0.1, fits.0.1, own),
    ),
    insert-Fits d c children ds own absent apart.1 fits.1,
  )

  -- The step returns, and leaves the loop where it can go on.
  abbrev Goes : List (DiscoveredResource Manifest) → Option (Found Manifest) → Type 0
  Goes ds o =
      (found : Found Manifest) × ((o ≡ some found)
        × (Returns found.child × All (Fits found.child) ds))

  record_child-Goes :
      (cluster_id salt : String) (d : DiscoveredResource Manifest) (m : Option Manifest)
      (found : Found Manifest) (ds : List (DiscoveredResource Manifest)) (root : String)
      → Returns found.child
      → ParentsFirst (d ∷ ds)
      → All (Fits found.child) (d ∷ ds)
      → Goes ds (record_child k cluster_id salt d m (some root) found)
  unfolding record_child file_child new_child_monitored_resource child_key
  record_child-Goes cluster_id salt d m found ds root returns first fits = (
    _,
    (
      refl,
      (
        insert-Returns (key_of d) _ found.child returns fits.0.0 first.0 fits.0.1,
        insert-Fits d _ found.child ds refl fits.0.0 first.1.0 fits.1,
      ),
    ),
  )

  record_as-Goes :
      (cluster_id salt : String) (d : DiscoveredResource Manifest) (m : Option Manifest)
      (o : Option (DesiredResource Manifest)) (found : Found Manifest)
      (ds : List (DiscoveredResource Manifest))
      → Returns found.child
      → ParentsFirst (d ∷ ds)
      → All (Fits found.child) (d ∷ ds)
      → Goes ds (record_as k cluster_id salt d m o found)
  unfolding record_as file_present new_present_monitored_resource
  record_as-Goes cluster_id salt d m (some r) found ds returns first fits =
      (_, (refl, (returns, fits.1)))
  record_as-Goes cluster_id salt d m none found ds returns first fits =
      let (root, p) = returns d.owner_id in
      subst (λ o. Goes ds (record_child k cluster_id salt d m o found)) (sym p)
        (record_child-Goes cluster_id salt d m found ds root returns first fits)

  record_all-Returns :
      (cluster_id : String) (c : SharedCluster Manifest)
      (desired : Map ResourceKey (DesiredResource Manifest)) (salt : String)
      (ds : List (DiscoveredResource Manifest)) (found : Found Manifest)
      → Returns found.child
      → ParentsFirst ds
      → All (Fits found.child) ds
      → (end : Found Manifest) × (record_all k cluster_id c desired salt ds found ≡ some end)
  unfolding record_all record_discovered
  record_all-Returns cluster_id c desired salt [] found returns first fits = (found, refl)
  record_all-Returns cluster_id c desired salt (d ∷ ds) found returns first fits =
      let (next, (p, (returns', fits'))) =
        record_as-Goes cluster_id salt d (manifest_of k c d.resource)
          (lookup d.resource.info.resource_key desired) found ds returns first fits in
      let (end, q) =
        record_all-Returns cluster_id c desired salt ds next returns' first.1.1 fits' in
      (end, ap (λ o. o >>= (λ f. record_all k cluster_id c desired salt ds f)) p ∙ q)

  none-Fits : (ds : List (DiscoveredResource Manifest)) → All (Fits []) ds
  unfolding lookup
  none-Fits [] = tt
  none-Fits (d ∷ ds) = ((refl, refl), none-Fits ds)

  none-Returns : Returns {M = Manifest} []
  unfolding get_root_parent_resource climb owner_of
  none-Returns id = (id, refl)

  snapshot_of-Returns :
      (cluster_id : String) (c : SharedCluster Manifest)
      (desired : Map ResourceKey (DesiredResource Manifest)) (salt : String)
      (unknown : Map String UnknownMonitoredResource) (live : Result String (List Manifest))
      → ((objects : List Manifest) → ParentsFirst (discover k c objects))
      → (r : Result String (MonitoredResources Manifest)) × (snapshot_of k cluster_id c desired salt
            unknown live
          ≡ some r)
  unfolding snapshot_of
  snapshot_of-Returns cluster_id c desired salt unknown (failed e) first = (failed e, refl)
  snapshot_of-Returns cluster_id c desired salt unknown (ok live) first =
      let (found, p) =
        record_all-Returns cluster_id c desired salt (discover k c live)
          (record { present = []; child = [] }) none-Returns (first live)
          (none-Fits (discover k c live)) in
      (
        ok (finish k cluster_id c (values desired) unknown found),
        ap (λ o. o >>= (λ f. some (finished (finish k cluster_id c (values desired) unknown f)))) p,
      )
    where
      finished : MonitoredResources Manifest → Result String (MonitoredResources Manifest)
      finished r = ok r

  -- If the cache's hierarchy comes parents first, with no resource its own owner and no two with one
  -- key, then the snapshot returns: with an error, or with the four maps.
  pub get_monitored_resources-Returns :
      (cluster_id : String) (c : SharedCluster Manifest)
      (desired : Map ResourceKey (DesiredResource Manifest)) (salt : String) (healthy : Bool)
      → ((objects : List Manifest) → ParentsFirst (discover k c objects))
      → (r : Result String (MonitoredResources Manifest)) × (get_monitored_resources k cluster_id c
            desired salt healthy
          ≡ some r)
  unfolding get_monitored_resources
  get_monitored_resources-Returns cluster_id c desired salt healthy first =
      snapshot_of-Returns cluster_id c desired salt
        (mark_unknown k cluster_id c healthy (values desired) []) _ first
