-- ===== src/Resources/Cache.antt =====
-- The cluster cache's resources (gitops-engine's `cache.Resource`) with the `Info` that
-- internal/cluster/resource_interests.go puts there, and the owners that internal/cluster/references.go
-- reads off a manifest. `populateResourceInfo` is the cache's only handler and always returns a
-- `ResourceInfo`, so `Info` is one.
use kubernetes_monitor.Prelude.{String, Option, none, some, List, Result, ok, failed, string_eq}
use kubernetes_monitor.Resources.Libraries.{
  Kubernetes, ResourceKey, OwnerReference, ObjectReference,
}

pub record ResourceInfo : Type 0 where
  pub resource_key : ResourceKey
  pub owner_refs : List OwnerReference

pub record CacheResource (M : Type 0) : Type 0 where
  pub resource_version : String
  pub ref : ObjectReference
  pub owner_refs : List OwnerReference
  pub info : ResourceInfo
  pub resource : Option M

unfoldable pub resource_info : {M : Type 0} → Option (CacheResource M) → Option ResourceInfo
resource_info none = none
resource_info (some res) = some res.info

module _ (k : Kubernetes) where
  open k use {parse_group}

  -- The key that Go returns beside an error is read by no caller.
  unfoldable pub owner_ref_resource_key : OwnerReference → String → Result String ResourceKey
  owner_ref_resource_key owner_ref namespace = elim (parse_group owner_ref.api_version) [
    | failed e ↦ failed e
    | ok group ↦ ok (record {
      group = group;
      kind = owner_ref.kind;
      namespace = namespace;
      name = owner_ref.name;
    })
  ]
