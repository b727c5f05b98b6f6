-- ===== src/Instance/SelfOwned.antt =====
-- The owner that internal/cluster/references.go writes for an Endpoints object is the object itself,
-- and `GetParentResourceId` of internal/cluster/application_instance.go takes it.
use kubernetes_monitor.Prelude.{
  ◌≡◌, refl, ◌∙◌, inl, inr, String, false, Option, none, some, [], ◌∷◌, Result, ◌==◌, string_eq,
  arith, Option-cases, beq_refl,
}
use kubernetes_monitor.Prelude.Maps.{Map, values, insert, delete}
use kubernetes_monitor.Resources.{
  ResourceKey, key_eq, CacheResource, ChildMonitoredResource, get_owner_references, child_key,
  new_child_monitored_resource, ApplicationInstanceChanges, or_nil, sanitize_manifest,
}
use kubernetes_monitor.Health.{get_health_status}
use kubernetes_monitor.Resources.Libraries.{Kubernetes}
use kubernetes_monitor.Instance.State.{ApplicationInstance, upsert_child_monitored_resource}
use kubernetes_monitor.Instance.Owners.{
  owner_of, get_root_parent_resource, get_parent_resource_id, first_parent,
}
use kubernetes_monitor.Instance.Events.{record_child, upsert_child}
use kubernetes_monitor.Instance.Roots.{get_root_parent_resource_self}

module _ {M : Type 0} where
  owner_of-insert :
      (id : String) (key : ResourceKey) (c : ChildMonitoredResource M)
      (children : Map ResourceKey (ChildMonitoredResource M))
      → c.resource_id ≡ id
      → owner_of id (values (delete key children)) ≡ none
      → owner_of id (values (insert key c children)) ≡ some c.owner_id
  unfolding owner_of insert delete
  owner_of-insert id key c [] e n = ground (arith, beq_refl id)
  owner_of-insert id key c ((j, d) ∷ children) e n =
      ground (arith, owner_of-insert id key c children, string_eq.beq_iff id c.resource_id)

-- An Endpoints object as the cache holds it: without owners of its own, and with the `Info` that
-- `populateResourceInfo` reads off its manifest.
pub record IsEndpoints (k : Kubernetes) (obj : k.Manifest) (res : CacheResource (k.Manifest))
    : Type 0 where
  pub core : (k.manifest_gvk obj).group ≡ ""
  pub endpoints : (k.manifest_gvk obj).kind ≡ "Endpoints"
  pub unowned : k.owner_references obj ≡ []
  pub has_uid : (k.manifest_uid obj == "") ≡ false
  pub info : res.info.owner_refs ≡ get_owner_references k obj
  pub uid : res.ref.uid ≡ k.manifest_uid obj

module _ (k : Kubernetes) where
  open k use {Manifest, manifest_gvk, manifest_uid, owner_references}

  -- The one reference that the program adds.
  endpoints_owners :
      (obj : Manifest) (res : CacheResource Manifest)
      → IsEndpoints k obj res
      → res.info.owner_refs
        ≡ record {
          api_version = "v1";
          kind = "Service";
          name = k.manifest_name obj;
          uid = manifest_uid obj;
        }
          ∷ []
  unfolding get_owner_references
  endpoints_owners obj res e =
      e.info ∙ rw (e.core, e.endpoints, e.unowned, get_owner_references) refl

  own_parent :
      (obj : Manifest) (res : CacheResource Manifest) (a : ApplicationInstance Manifest)
      → IsEndpoints k obj res
      → get_parent_resource_id k a res.info ≡ manifest_uid obj
  unfolding get_parent_resource_id first_parent
  own_parent obj res a e = rw (endpoints_owners obj res e, e.has_uid) refl

  -- The key under which the child is filed.
  abbrev ref_key : CacheResource Manifest → ResourceKey
  ref_key res = record {
    group = (k.reference_gvk res.ref).group;
    kind = (k.reference_gvk res.ref).kind;
    namespace = res.ref.namespace;
    name = res.ref.name;
  }

  -- One handling leaves the object as its own owner.
  left_self_owned :
      (cluster_id : String) (a b : ApplicationInstance Manifest) (obj : Manifest)
      (res : CacheResource Manifest) (m : Option Manifest)
      (sent : Result String (Option (ApplicationInstanceChanges Manifest)))
      → IsEndpoints k obj res
      → owner_of (manifest_uid obj) (values (delete (ref_key res) a.child_monitored_resources))
        ≡ none
      → upsert_child k cluster_id a res m ≡ some (b, sent)
      → owner_of (manifest_uid obj) (values b.child_monitored_resources) ≡ some (manifest_uid obj)
  unfolding upsert_child record_child new_child_monitored_resource upsert_child_monitored_resource
      child_key
  left_self_owned cluster_id a b obj res m sent e others h =
      let owner = get_parent_resource_id k a res.info in
      elim (Option-cases (get_root_parent_resource owner a.child_monitored_resources)) [
        | inl none_left ↦ absurd (ground arith)
        | inr (root, found) ↦ ground (
          arith,
          own_parent obj res a e,
          e.uid,
          owner_of-insert (manifest_uid obj) (ref_key res)
              (record {
                cluster_id = cluster_id;
                owner_id = owner;
                root_owner_id = root;
                status = get_health_status k m;
                group_version_kind = k.reference_gvk res.ref;
                name = res.ref.name;
                namespace = res.ref.namespace;
                resource_id = res.ref.uid;
                resource_version = res.ref.resource_version;
                manifest = or_nil (sanitize_manifest k res m a.hash_salt);
              })
              a.child_monitored_resources,
        )
      ]

  -- The handling of an added or changed child that is an Endpoints object with an id and without
  -- owners of its own, no other child having its id: whatever state it starts from, if it returns,
  -- then handling the same resource again in the state that it leaves never returns.
  pub endpoints_never_returns :
      (cluster_id : String) (a b : ApplicationInstance Manifest) (obj : Manifest)
      (res : CacheResource Manifest) (m : Option Manifest)
      (sent : Result String (Option (ApplicationInstanceChanges Manifest)))
      → IsEndpoints k obj res
      → owner_of (manifest_uid obj) (values (delete (ref_key res) a.child_monitored_resources))
        ≡ none
      → upsert_child k cluster_id a res m ≡ some (b, sent)
      → upsert_child k cluster_id b res m ≡ none
  unfolding upsert_child
  endpoints_never_returns cluster_id a b obj res m sent e others h =
      rw
        (
          upsert_child,
          own_parent obj res b e,
          get_root_parent_resource_self (manifest_uid obj) b.child_monitored_resources
              (left_self_owned cluster_id a b obj res m sent e others h),
        )
        refl
