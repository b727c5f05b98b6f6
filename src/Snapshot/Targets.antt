-- ===== src/Snapshot/Targets.antt =====
-- What `getMonitoredResources` of internal/cluster/shared_cluster.go hands to the engine, which fails
-- for the whole application instance on a resource that it cannot map or may not list.
use kubernetes_monitor.Prelude.{
  ◌≡◌, refl, ap, String, Bool, true, false, not, none, some, List, [], ◌∷◌, ◌&&◌, string_eq,
  if◌then◌else◌, is_some, All, arith, Option-cases, inl, inr, beq_refl,
}
use mathlib.Core.List.{Memᴰ}
use kubernetes_monitor.Prelude.Sets.{contains}
use kubernetes_monitor.Prelude.Maps.{Map, lookup}
use kubernetes_monitor.Resources.{
  Kubernetes, DesiredResource, UnknownMonitoredResource, group_kind_eq,
}
use kubernetes_monitor.Snapshot.Connection.{SharedCluster}
use kubernetes_monitor.Snapshot.Scan.{
  mark_unknown, unknown_message, target_object, target_objects, gvk_is_known_to_cluster,
  effective_namespace, gvk_excluded, non_empty,
}
use kubernetes_monitor.Snapshot.Names.{named}
use kubernetes_monitor.Snapshot.Marks.{lookup-mark_unknown}

module _ (k : Kubernetes) (cluster_id : String) (c : SharedCluster k.Manifest) where
  open k use {Manifest, manifest_gvk}

  -- A resource that the engine can handle.
  pub record IsManageable (d : DesiredResource Manifest) (m : Manifest) : Type 0 where
    pub is_its_manifest : d.manifest ≡ some m
    pub known : gvk_is_known_to_cluster k c d ≡ true
    pub resolved : d.is_namespace_resolved ≡ true
    pub scoped : (c.namespace_scoped_mode && d.is_cluster_scoped) ≡ false
    pub managed :
        (if non_empty c.target_namespaces && not d.is_cluster_scoped
          then contains c.target_namespaces (effective_namespace k d)
          else true)
        ≡ true
    pub permitted : gvk_excluded c (manifest_gvk m) ≡ false

  no_message :
      (healthy : Bool) (d : DesiredResource Manifest) (m : Manifest)
      (unknown : Map String UnknownMonitoredResource)
      → target_object k c unknown d ≡ some m
      → unknown_message k c healthy d ≡ none
      → IsManageable d m
  unfolding target_object unknown_message
  no_message healthy d m unknown t e = record {
    is_its_manifest = ground arith;
    known = ground arith;
    resolved = ground arith;
    scoped = ground arith;
    managed = ground arith;
    permitted = ground arith;
  }

  unmarked :
      (d : DesiredResource Manifest) (m : Manifest) (unknown : Map String UnknownMonitoredResource)
      → target_object k c unknown d ≡ some m
      → is_some (lookup d.id unknown) ≡ false
  unfolding target_object
  unmarked d m unknown t = ground arith

  -- A manifest of one of the resources, which the engine can handle.
  abbrev pub Comes : List (DesiredResource Manifest) → Manifest → Type 0
  Comes all m = (d : DesiredResource Manifest) × (Memᴰ d all × IsManageable d m)

  message_of_member :
      (healthy : Bool) (d : DesiredResource Manifest) (all : List (DesiredResource Manifest))
      → Memᴰ d all
      → named (λ e. is_some (unknown_message k c healthy e)) d.id all ≡ false
      → unknown_message k c healthy d ≡ none
  message_of_member healthy d [] m h = elim m [ ]
  message_of_member healthy d (e ∷ all) (Memᴰ.head p) h =
      ground (arith, beq_refl d.id, ap (λ x. x.id) p, ap (unknown_message k c healthy) p)
  message_of_member healthy d (e ∷ all) (Memᴰ.tail m) h =
      message_of_member healthy d all m (ground arith)

  target-Comes :
      (healthy : Bool) (d : DesiredResource Manifest) (all : List (DesiredResource Manifest))
      (m : Manifest)
      → Memᴰ d all
      → target_object k c (mark_unknown k cluster_id c healthy all []) d ≡ some m
      → Comes all m
  unfolding lookup
  target-Comes healthy d all m i t = (
    d,
    (
      i,
      no_message healthy d m _ t (
          message_of_member healthy d all i (
            ground (
              arith,
              lookup-mark_unknown k cluster_id c healthy d.id all [],
              unmarked d m (mark_unknown k cluster_id c healthy all []) t,
            ))),
    ),
  )

  targets-Comes :
      (healthy : Bool) (ds all : List (DesiredResource Manifest))
      → ((d : DesiredResource Manifest) → Memᴰ d ds → Memᴰ d all)
      → All (Comes all) (target_objects k c (mark_unknown k cluster_id c healthy all []) ds)
  unfolding target_objects
  targets-Comes healthy [] all h = tt
  targets-Comes healthy (d ∷ ds) all h =
      let rest = targets-Comes healthy ds all (λ e m. h e (Memᴰ.tail m)) in
      elim (Option-cases (target_object k c (mark_unknown k cluster_id c healthy all []) d)) [
        | inl p ↦ rw (p, All) rest
        | inr (m, p) ↦ rw (p, All) (target-Comes healthy d all m (h d (Memᴰ.head refl)) p, rest)
      ]

  -- Every manifest that the snapshot hands to the engine is that of a desired resource whose type the
  -- cluster has, whose namespace is known and monitored, which is not of the cluster's scope in
  -- namespace-scoped mode, and whose manifest's type the filter lets through.
  pub target_objects-All :
      (healthy : Bool) (ds : List (DesiredResource Manifest))
      → All (Comes ds) (target_objects k c (mark_unknown k cluster_id c healthy ds []) ds)
  target_objects-All healthy ds = targets-Comes healthy ds ds (λ d m. m)
