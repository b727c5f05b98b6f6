-- ===== src/Snapshot/Shown.antt =====
-- What the loop of `getMonitoredResources` of internal/cluster/shared_cluster.go over the resources that
-- it discovers files as present and as children, and under which keys.
use kubernetes_monitor.Prelude.{
  ◌≡◌, refl, ap, subst, ◌∙◌, String, Bool, true, false, Option, none, some, List, [], ◌∷◌, ◌||◌,
  ◌==◌, string_eq, is_some, any, arith, ◌⊎◌, inl, inr, Bool-cases, not, ◌&&◌, eq_of_beq,
}
use kubernetes_monitor.Prelude.Maps.{Map, lookup, insert, lookup-insert}
use kubernetes_monitor.Resources.{
  Kubernetes, ResourceKey, DesiredResource, CacheResource, PresentMonitoredResource, key_eq,
  child_key, ObjectReference, new_present_monitored_resource, new_child_monitored_resource,
}
use kubernetes_monitor.Health.{get_health_status}
use kubernetes_monitor.Snapshot.Connection.{SharedCluster}
use kubernetes_monitor.Snapshot.Scan.{
  Found, DiscoveredResource, record_all, record_child, record_as, record_discovered, file_present,
  file_child, manifest_of, discovered,
}
use kubernetes_monitor.Snapshot.Filed.{After, After-bind}

-- Some element of the list has the property.
abbrev pub Among : {A : Type 0} → (A → Type 0) → List A → Type 0
Among P [] = ⊥
Among P (x ∷ xs) = P x ⊎ Among P xs

After-map :
    {A : Type 0} (P Q : A → Type 0) (o : Option A) → ((a : A) → P a → Q a) → After P o → After Q o
After-map P Q none f h = tt
After-map P Q (some a) f h = f a h

module _ {M : Type 0} where
  pub any-discovered :
      (p : CacheResource M → Bool) (entries : List (CacheResource M × List (CacheResource M)))
      → any (λ d. p d.resource) (discovered entries) ≡ any (λ entry. p entry.0) entries
  unfolding discovered
  any-discovered p [] = refl
  any-discovered p ((res, namespace_resources) ∷ entries) = ground (arith, any-discovered p entries)

  pub Among-discovered :
      (P : CacheResource M → Type 0) (entries : List (CacheResource M × List (CacheResource M)))
      → Among (λ d. P d.resource) (discovered entries)
      → Among (λ entry. P entry.0) entries
  unfolding discovered
  Among-discovered P [] h = h
  Among-discovered P ((res, namespace_resources) ∷ entries) (inl here) = inl here
  Among-discovered P ((res, namespace_resources) ∷ entries) (inr later) =
      inr (Among-discovered P entries later)

abbrev pub has_id : {M : Type 0} → String → Option (DesiredResource M) → Bool
has_id id none = false
has_id id (some d) = d.id == id

-- What stands under a key after an insertion: what stood there, or what was put in.
lookup-insert-cases :
    {V : Type 0} (key id : String) (v p : V) (m : Map String V)
    → lookup id (insert key v m) ≡ some p
    → (lookup id m ≡ some p) ⊎ ((key ≡ id) × (v ≡ p))
lookup-insert-cases key id v p m h = elim (Bool-cases (key == id)) [
  | inl same ↦ inr (eq_of_beq key id same, ground (arith, h, lookup-insert key id v m, same))
  | inr differ ↦ inl (ground (arith, h, lookup-insert key id v m, differ))
]

-- The key under which a resource that is nobody's desired one is reported.
abbrev pub reference_key : (k : Kubernetes) → ObjectReference → ResourceKey
reference_key k ref =
    let gvk = k.reference_gvk ref in
    record { group = gvk.group; kind = gvk.kind; namespace = ref.namespace; name = ref.name }

module _ (k : Kubernetes) (cluster_id : String) (c : SharedCluster k.Manifest)
    (desired : Map ResourceKey (DesiredResource k.Manifest)) (salt : String) where
  open k use {Manifest}

  -- The resource has the key of the desired resource with this id.
  abbrev pub is_desired_as : String → CacheResource Manifest → Bool
  is_desired_as id res = has_id id (lookup res.info.resource_key desired)

  -- The resource has no desired resource's key, and this is the key of what is reported of it.
  abbrev pub is_child_at : ResourceKey → CacheResource Manifest → Bool
  is_child_at key res =
      not (is_some (lookup res.info.resource_key desired)) && (reference_key k res.ref == key)

  -- What is reported under the id is this resource of the cluster, with the health of its manifest.
  pub record IsShown (id : String) (p : PresentMonitoredResource Manifest)
      (res : CacheResource Manifest) : Type 0 where
    pub desired_as : is_desired_as id res ≡ true
    pub under : p.desired_resource_id ≡ id
    pub in_cluster : p.cluster_id ≡ cluster_id
    pub name : p.name ≡ res.ref.name
    pub namespace : p.namespace ≡ res.ref.namespace
    pub uid : p.resource_id ≡ res.ref.uid
    pub status : p.status ≡ get_health_status k (manifest_of k c res)

  -- What the loop has filed under the id when it goes from one state to another.
  pub record Files (id : String) (ds : List (DiscoveredResource Manifest)) (found : Found Manifest)
      (found' : Found Manifest) : Type 0 where
    pub present :
        is_some (lookup id found'.present)
        ≡ (is_some (lookup id found.present) || any (λ d. is_desired_as id d.resource) ds)
    pub shown :
        (p : PresentMonitoredResource Manifest)
        → lookup id found'.present ≡ some p
        → (lookup id found.present ≡ some p) ⊎ Among (λ d. IsShown id p d.resource) ds
    pub child :
        (key : ResourceKey)
        → is_some (lookup key found'.child)
          ≡ (is_some (lookup key found.child) || any (λ d. is_child_at key d.resource) ds)

  record_child-Files :
      (id : String) (d : DiscoveredResource Manifest) (m : Option Manifest) (root : Option String)
      (found : Found Manifest)
      → lookup d.resource.info.resource_key desired ≡ none
      → After (Files id (d ∷ []) found) (record_child k cluster_id salt d m root found)
  unfolding record_child file_child new_child_monitored_resource child_key
  record_child-Files id d m none found e = tt
  record_child-Files id d m (some root) found e = record {
    present = ground (arith, ap (has_id id) e);
    shown = λ p h. inl h;
    child = λ key.
        ap is_some (lookup-insert (reference_key k d.resource.ref) key _ found.child)
        ∙ ground (arith, ap is_some e);
  }

  record_as-Files :
      (id : String) (d : DiscoveredResource Manifest) (o : Option (DesiredResource Manifest))
      (found : Found Manifest)
      → lookup d.resource.info.resource_key desired ≡ o
      → After
          (Files id (d ∷ []) found)
          (record_as k cluster_id salt d (manifest_of k c d.resource) o found)
  unfolding record_as file_present new_present_monitored_resource
  record_as-Files id d none found e = record_child-Files id d _ _ found e
  record_as-Files id d (some r) found e = record {
    present = ap is_some (lookup-insert r.id id _ found.present) ∙ ground (arith, ap (has_id id) e);
    shown = λ p h. elim (lookup-insert-cases r.id id _ p found.present h) [
      | inl before ↦ inl before
      | inr (same, at) ↦ inr (
          inl (
            subst (λ q. IsShown id q d.resource) at
              (record {
                desired_as = ap (has_id id) e ∙ (string_eq.beq_iff r.id id).1 same;
                under = same;
                in_cluster = refl;
                name = refl;
                namespace = refl;
                uid = refl;
                status = refl;
              })))
    ];
    child = λ key. ground (arith, ap is_some e);
  }

  record_discovered-Files :
      (id : String) (d : DiscoveredResource Manifest) (found : Found Manifest)
      → After (Files id (d ∷ []) found) (record_discovered k cluster_id c desired salt d found)
  unfolding record_discovered
  record_discovered-Files id d found = record_as-Files id d _ found refl

  Files-trans :
      (id : String) (d : DiscoveredResource Manifest) (ds : List (DiscoveredResource Manifest))
      (found found' found'' : Found Manifest)
      → Files id (d ∷ []) found found'
      → Files id ds found' found''
      → Files id (d ∷ ds) found found''
  Files-trans id d ds found found' found'' h h' = record {
    present = ground (arith, h.present, h'.present);
    shown = λ p e. elim (h'.shown p e) [
      | inr later ↦ inr (inr later)
      | inl before ↦ elim (h.shown p before) [
        | inl earlier ↦ inl earlier
        | inr (inl here) ↦ inr (inl here)
        | inr (inr none_left) ↦ absurd none_left
      ]
    ];
    child = λ key. ground (arith, h.child key, h'.child key);
  }

  pub record_all-Files :
      (id : String) (ds : List (DiscoveredResource Manifest)) (found : Found Manifest)
      → After (Files id ds found) (record_all k cluster_id c desired salt ds found)
  unfolding record_all
  record_all-Files id [] found = record {
    present = ground arith;
    shown = λ p e. inl e;
    child = λ key. ground arith;
  }
  record_all-Files id (d ∷ ds) found =
      After-bind (Files id (d ∷ []) found) (Files id (d ∷ ds) found)
        (record_discovered k cluster_id c desired salt d found)
        (λ found'. record_all k cluster_id c desired salt ds found')
        (record_discovered-Files id d found)
        (λ found' h.
          After-map (Files id ds found') (Files id (d ∷ ds) found) _
            (λ found'' h'. Files-trans id d ds found found' found'' h h')
            (record_all-Files id ds found'))
