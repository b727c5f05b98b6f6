-- ===== src/Snapshot/Connection.antt =====
-- The shared connection of internal/cluster/shared_cluster.go: what gitops-engine's cache, the
-- discovery client and the dynamic client answer at one moment, and how the program asks them.
use kubernetes_monitor.Prelude.{
  String, Bool, true, false, Option, none, some, List, [], ◌∷◌, Result, ok, failed, ◌&&◌, ◌==◌,
  string_eq, if◌then◌else◌,
}
use kubernetes_monitor.Prelude.Maps.{Map, insert}
use kubernetes_monitor.Resources.{
  Kubernetes, ResourceKey, GroupKind, TypeMeta, OwnerReference, type_meta_eq, CacheResource,
}
use kubernetes_monitor.Resources.Libraries.{group_kind}

-- `metav1.APIResourceList`, as far as it is read: its group and version, and each resource's kind,
-- plural name and whether it has namespaces.
pub record ApiResource : Type 0 where
  pub kind : String
  pub name : String
  pub namespaced : Bool

pub record ApiResourceList : Type 0 where
  pub group_version : String
  pub api_resources : List ApiResource

-- The struct's own fields, and what the clients that it holds answer.
pub record SharedCluster (M : Type 0) : Type 0 where
  pub namespace_scoped_mode : Bool
  pub target_namespaces : List String
  -- `resourceFilter.IsExcludedResource(group, kind, clusterServer)`, where there is a filter
  pub is_excluded_resource : Option (String → String → Bool)
  -- `clusterCache`: `GetAPIResources`, `IsNamespaced`, `GetManagedLiveObjs` (its map's values), and
  -- the calls that `IterateHierarchyV2` makes of its callback, each with the namespace's resources
  pub api_resources : List GroupKind
  pub is_namespaced : GroupKind → Result String Bool
  pub get_managed_live_objs : List M → (CacheResource M → Bool) → Result String (List M)
  pub iterate_hierarchy : List ResourceKey → List (CacheResource M × List (CacheResource M))
  pub ensure_synced : Option String
  -- `cachedDiscoveryClient.ServerPreferredResources()`, whose list may be nil
  pub server_preferred_resources : Result String (Option (List ApiResourceList))
  -- `RESTMapping` over the cached discovery client, where there is one: the plural resource, and
  -- whether its scope is a namespace
  pub rest_mapping : Option (GroupKind → String → Result String (String × Bool))
  -- `dynamicClient.Resource(gvr)[.Namespace(namespace)].Get(name)`, where there is one
  pub get_live : Option (String → Option String → String → Result String M)

-- `maps` of `listApiResources`.
unfoldable pub add_api_resources : String → List ApiResource → Map TypeMeta Bool → Map TypeMeta Bool
add_api_resources group_version [] namespaced = namespaced
add_api_resources group_version (resource ∷ resources) namespaced =
    add_api_resources group_version resources (
      insert (record { kind = resource.kind; api_version = group_version }) resource.namespaced
        namespaced)

unfoldable pub add_resource_lists : List ApiResourceList → Map TypeMeta Bool → Map TypeMeta Bool
unfolding add_api_resources
add_resource_lists [] namespaced = namespaced
add_resource_lists (list ∷ lists) namespaced =
    add_resource_lists lists (add_api_resources list.group_version list.api_resources namespaced)

-- The owners that the last loop of `getFirstOwnerId` collects.
unfoldable pub matching_owners :
    {M : Type 0} → OwnerReference → List (CacheResource M) → List (CacheResource M)
matching_owners owner [] = []
matching_owners owner (r ∷ rs) =
    let rest = matching_owners owner rs in
    if r.ref.name == owner.name
      && (r.ref.kind == owner.kind && r.ref.api_version == owner.api_version)
    then r ∷ rest
    else rest

unfoldable pub get_first_owner_id :
    {M : Type 0} → CacheResource M → List (CacheResource M) → Result String String
unfolding matching_owners
get_first_owner_id res namespace_resources = elim res.owner_refs [
  | [] ↦ failed "Resource has no owner"
  | owner ∷ owners ↦
      if owner.uid == ""
      then elim (matching_owners owner namespace_resources) [
        | [] ↦ failed "Resource has an owner but no UID could be found"
        | r ∷ rs ↦ ok r.ref.uid
      ]
      else ok owner.uid
]

-- The string that Go returns beside an error is empty.
abbrev pub id_or_empty : Result String String → String
id_or_empty (ok id) = id
id_or_empty (failed e) = ""

module _ {M : Type 0} (c : SharedCluster M) where
  unfoldable pub list_api_resources : Result String (Option (Map TypeMeta Bool))
  list_api_resources = elim c.server_preferred_resources [
    | failed e ↦ failed e
    | ok none ↦ ok none
    | ok (some lists) ↦ ok (some (add_resource_lists lists []))
  ]

  -- The table of built-in types (default_api_resources.go) is the first argument.
  unfoldable pub namespace_map_with_health : Map TypeMeta Bool → Map TypeMeta Bool × Bool
  unfolding list_api_resources
  namespace_map_with_health default_api_resources = elim list_api_resources [
    | failed e ↦ (default_api_resources, false)
    | ok none ↦ (default_api_resources, false)
    | ok (some namespaced_map) ↦ (namespaced_map, true)
  ]

module _ (k : Kubernetes) where
  open k use {Manifest, reference_gvk}

  unfoldable pub lookup_gvr :
      SharedCluster Manifest → GroupKind → String → Result String (String × Bool)
  lookup_gvr c gk version = elim c.rest_mapping [
    | none ↦ failed "no cached discovery client configured"
    | some mapping ↦ mapping gk version
  ]

  unfoldable pub fetch_live :
      SharedCluster Manifest
      → (String → Option String → String → Result String Manifest)
      → CacheResource Manifest
      → Result String (Option Manifest)
  unfolding lookup_gvr
  fetch_live c get res =
      let gvk = reference_gvk res.ref in
      elim (lookup_gvr c (group_kind gvk) gvk.version) [
        | failed e ↦ failed e
        | ok (gvr, namespaced) ↦
            elim (get gvr (if namespaced then some res.ref.namespace else none) res.ref.name) [
              | failed e ↦ failed e
              | ok manifest ↦ ok (some manifest)
            ]
      ]

  unfoldable pub resolve_manifest :
      SharedCluster Manifest → Option (CacheResource Manifest) → Result String (Option Manifest)
  unfolding fetch_live
  resolve_manifest c none = ok none
  resolve_manifest c (some res) = elim res.resource [
    | some manifest ↦ ok (some manifest)
    | none ↦ elim c.get_live [ none ↦ ok none | some get ↦ fetch_live c get res ]
  ]
