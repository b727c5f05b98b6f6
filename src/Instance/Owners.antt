-- ===== src/Instance/Owners.antt =====
-- `GetParentResourceId` of internal/cluster/application_instance.go, and `getRootParentResource` of
-- internal/cluster/cluster.go, which Go writes as an unbounded recursion: fuel bounds it here, and
-- `none` is running out. One more than the number of children is enough whenever Go's call returns
-- (Instance/Roots).
use kubernetes_monitor.Prelude.{
  ℕ, zero, suc, String, not, Option, none, some, List, [], ◌∷◌, ok, failed, length, ◌==◌, string_eq,
  if◌then◌else◌,
}
use kubernetes_monitor.Prelude.Maps.{Map, values, lookup}
use kubernetes_monitor.Resources.{
  Kubernetes, ResourceKey, OwnerReference, key_eq, ResourceInfo, ChildMonitoredResource,
  owner_ref_resource_key,
}
use kubernetes_monitor.Instance.State.{ApplicationInstance}

-- The owner of the first child with this id.
unfoldable pub owner_of : {M : Type 0} → String → List (ChildMonitoredResource M) → Option String
owner_of id [] = none
owner_of id (c ∷ cs) = if id == c.resource_id then some c.owner_id else owner_of id cs

unfoldable pub climb : {M : Type 0} → ℕ → String → List (ChildMonitoredResource M) → Option String
climb zero owner_id cs = none
climb (suc fuel) owner_id cs = elim (owner_of owner_id cs) [
  | none ↦ some owner_id
  | some parent ↦ climb fuel parent cs
]

unfoldable pub get_root_parent_resource :
    {M : Type 0} → String → Map ResourceKey (ChildMonitoredResource M) → Option String
unfolding climb owner_of
get_root_parent_resource owner_id children =
    climb (suc (length (values children))) owner_id (values children)

module _ (k : Kubernetes) where
  open k use {Manifest}

  -- The two lookups by key.
  unfoldable pub known_owner : ApplicationInstance Manifest → ResourceKey → Option String
  known_owner a owner_key =
      let as_child : Option String = elim (lookup owner_key a.child_monitored_resources) [
        | none ↦ none
        | some child ↦ some child.resource_id
      ] in
      elim (lookup owner_key a.desired_resources) [
        | none ↦ as_child
        | some desired ↦ elim (lookup desired.id a.present_monitored_resources) [
          | none ↦ as_child
          | some present ↦ some present.resource_id
        ]
      ]

  -- The loop over the owner references.
  unfoldable pub first_parent : ApplicationInstance Manifest → String → List OwnerReference → String
  unfolding known_owner
  first_parent a namespace [] = ""
  first_parent a namespace (ref ∷ refs) =
      let rest = first_parent a namespace refs in
      if not (ref.uid == "") then ref.uid else elim (owner_ref_resource_key k ref namespace) [
        | failed e ↦ ""
        | ok owner_key ↦ elim (known_owner a owner_key) [ none ↦ rest | some id ↦ id ]
      ]

  unfoldable pub get_parent_resource_id : ApplicationInstance Manifest → ResourceInfo → String
  unfolding first_parent
  get_parent_resource_id a info = first_parent a info.resource_key.namespace info.owner_refs
