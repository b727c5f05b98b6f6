-- ===== src/Instance/Events.antt =====
-- `calculateResourceChange` and `GetChangesForUpdatedResource` of
-- internal/cluster/application_instance.go: what one event of the cluster cache means for the
-- application instance, and what is sent about it.
use kubernetes_monitor.Prelude.{
  String, Bool, true, false, Option, none, some, List, [], ◌∷◌, Result, ok, failed, string_eq,
  if◌then◌else◌, is_some, ◌>>=◌,
}
use kubernetes_monitor.Prelude.Sets.{contains}
use kubernetes_monitor.Prelude.Maps.{lookup}
use kubernetes_monitor.Resources.{
  Kubernetes, ResourceKey, OwnerReference, key_eq, DesiredResource, CacheResource,
  PresentMonitoredResource, ChildMonitoredResource, ApplicationInstanceChanges,
  owner_ref_resource_key, new_present_monitored_resource, new_child_monitored_resource,
  new_missing_monitored_resource,
}
use kubernetes_monitor.Instance.State.{
  ApplicationInstance, upsert_present_monitored_resource, delete_present_monitored_resource,
  upsert_child_monitored_resource, delete_child_monitored_resource,
  upsert_missing_monitored_resource, delete_missing_monitored_resource,
}
use kubernetes_monitor.Instance.Owners.{get_root_parent_resource, get_parent_resource_id}

pub data OnResourceUpdated : Type 0 where
  no_change desired_resource_found desired_resource_updated : OnResourceUpdated
  desired_resource_removed child_resource_found child_resource_updated : OnResourceUpdated
  child_resource_removed : OnResourceUpdated

-- An early `return` of the first option, or the rest.
abbrev pub or_else : Option OnResourceUpdated → OnResourceUpdated → OnResourceUpdated
or_else none rest = rest
or_else (some change) rest = change

module _ {M : Type 0} where
  unfoldable pub desired_of :
      ApplicationInstance M → Option (CacheResource M) → Option (DesiredResource M)
  desired_of a none = none
  desired_of a (some res) = lookup res.info.resource_key a.desired_resources

  unfoldable pub is_child : ApplicationInstance M → Option (CacheResource M) → Bool
  is_child a none = false
  is_child a (some res) = is_some (lookup res.info.resource_key a.child_monitored_resources)

  -- `if newResourceDesired != nil`
  unfoldable pub new_desired_change :
      ApplicationInstance M → Option (DesiredResource M) → Option OnResourceUpdated
  new_desired_change a none = none
  new_desired_change a (some d) =
      if is_some (lookup d.id a.missing_monitored_resources)
      then some desired_resource_found
      else if is_some (lookup d.id a.present_monitored_resources)
      then some desired_resource_updated
      else none

  -- `if oldResourceDesired != nil`
  unfoldable pub old_desired_change :
      ApplicationInstance M → Option (DesiredResource M) → Option OnResourceUpdated
  old_desired_change a none = none
  old_desired_change a (some d) =
      if is_some (lookup d.id a.present_monitored_resources)
      then some desired_resource_removed
      else none

module _ (k : Kubernetes) where
  open k use {Manifest}

  -- The loop over the owner references: is one of the owners tracked?
  unfoldable pub has_tracked_owner : List ResourceKey → String → List OwnerReference → Bool
  has_tracked_owner tracked namespace [] = false
  has_tracked_owner tracked namespace (ref ∷ refs) =
      let rest = has_tracked_owner tracked namespace refs in
      elim (owner_ref_resource_key k ref namespace) [
        | failed e ↦ rest
        | ok owner_key ↦ if contains tracked owner_key then true else rest
      ]

  unfoldable pub is_owned : ApplicationInstance Manifest → Option (CacheResource Manifest) → Bool
  is_owned a none = false
  is_owned a (some res) =
      has_tracked_owner a.tracked_resource_keys res.ref.namespace res.info.owner_refs

  unfoldable pub calculate_resource_change :
      ApplicationInstance Manifest
      → Option (CacheResource Manifest)
      → Option (CacheResource Manifest)
      → OnResourceUpdated
  unfolding new_desired_change old_desired_change is_child is_owned
  calculate_resource_change a new_res old_res =
      or_else (new_desired_change a (desired_of a new_res)) (
        if is_child a new_res
        then child_resource_updated
        else or_else (old_desired_change a (desired_of a old_res)) (
            if is_child a old_res
            then child_resource_removed
            else if is_owned a new_res
            then child_resource_found
            else no_change))

  -- A change set with nothing in it.
  abbrev pub empty_changes :
      String → ApplicationInstance Manifest → ApplicationInstanceChanges Manifest
  empty_changes cluster_id a = record {
    application_instance_id = a.application_instance_id;
    cluster_id = cluster_id;
    present_monitored_resources = [];
    child_monitored_resources = [];
    missing_monitored_resources = [];
    unknown_monitored_resources = [];
    deleted_child_resource_keys = [];
  }

  -- What a call leaves and returns. `none` is a nil dereference, or a recursion that never ends.
  abbrev pub Outcome : Type 0
  Outcome =
      Option (
        ApplicationInstance Manifest × Result String (Option (ApplicationInstanceChanges Manifest)))

  -- The cases of a desired resource that is in the cluster. Go upserts before it looks at the error,
  -- so a failed construction would be dereferenced.
  unfoldable pub record_present :
      String
      → (ApplicationInstance Manifest → ApplicationInstance Manifest)
      → ApplicationInstance Manifest
      → Result String (PresentMonitoredResource Manifest)
      → Outcome
  record_present cluster_id after a (failed e) = none
  record_present cluster_id after a (ok present) = some (
    after (upsert_present_monitored_resource present a),
    ok (some (record (empty_changes cluster_id a) { present_monitored_resources = present ∷ [] })),
  )

  unfoldable pub record_missing :
      String → ApplicationInstance Manifest → DesiredResource Manifest → Outcome
  record_missing cluster_id a d =
      let missing = new_missing_monitored_resource k cluster_id d in
      some (
        upsert_missing_monitored_resource missing (delete_present_monitored_resource d.id a),
        ok (
            some
              (record (empty_changes cluster_id a) { missing_monitored_resources = missing ∷ [] })),
      )

  unfoldable pub record_child :
      String
      → ApplicationInstance Manifest
      → Result String (ChildMonitoredResource Manifest)
      → Outcome
  record_child cluster_id a (failed e) = none
  record_child cluster_id a (ok child) = some (
    upsert_child_monitored_resource child a,
    ok (some (record (empty_changes cluster_id a) { child_monitored_resources = child ∷ [] })),
  )

  unfoldable pub upsert_child :
      String → ApplicationInstance Manifest → CacheResource Manifest → Option Manifest → Outcome
  unfolding record_child
  upsert_child cluster_id a new_res manifest =
      let owner_id = get_parent_resource_id k a new_res.info in
      elim (get_root_parent_resource owner_id a.child_monitored_resources) [
        | none ↦ none
        | some root_owner_id ↦ record_child cluster_id a (
            new_child_monitored_resource k cluster_id new_res manifest owner_id root_owner_id
              a.hash_salt)
      ]

  -- `resolver.ResolveManifest(ctx, newRes)`, whose error is dropped.
  unfoldable pub new_manifest :
      Option (CacheResource Manifest → Option Manifest)
      → Option (CacheResource Manifest)
      → Option Manifest
  new_manifest none new_res = none
  new_manifest (some resolve) none = none
  new_manifest (some resolve) (some new_res) = resolve new_res

  -- The body of the `switch`.
  unfoldable pub apply_change :
      String
      → Option Manifest
      → OnResourceUpdated
      → Option (CacheResource Manifest)
      → Option (CacheResource Manifest)
      → ApplicationInstance Manifest
      → Outcome
  unfolding record_present record_missing upsert_child desired_of
  apply_change cluster_id manifest no_change new_res old_res a = some (a, ok none)
  apply_change cluster_id manifest desired_resource_found new_res old_res a = do
    res ← new_res
    d ← desired_of a new_res
    record_present cluster_id (delete_missing_monitored_resource d.id) a
        (new_present_monitored_resource k cluster_id res manifest d a.hash_salt)
  apply_change cluster_id manifest desired_resource_updated new_res old_res a = do
    res ← new_res
    d ← desired_of a new_res
    record_present cluster_id (λ b. b) a
        (new_present_monitored_resource k cluster_id res manifest d a.hash_salt)
  apply_change cluster_id manifest desired_resource_removed new_res old_res a = do
    d ← desired_of a old_res
    record_missing cluster_id a d
  apply_change cluster_id manifest child_resource_found new_res old_res a = do
    res ← new_res
    upsert_child cluster_id a res manifest
  apply_change cluster_id manifest child_resource_updated new_res old_res a = do
    res ← new_res
    upsert_child cluster_id a res manifest
  apply_change cluster_id manifest child_resource_removed new_res old_res a = do
    res ← old_res
    some (
      delete_child_monitored_resource res.info.resource_key a,
      ok (
          some (record (empty_changes cluster_id a) {
            deleted_child_resource_keys = res.info.resource_key ∷ [];
          })),
    )

  unfoldable pub get_changes_for_updated_resource :
      String
      → Option (CacheResource Manifest → Option Manifest)
      → Option (CacheResource Manifest)
      → Option (CacheResource Manifest)
      → ApplicationInstance Manifest
      → Outcome
  unfolding apply_change
  get_changes_for_updated_resource cluster_id resolver new_res old_res a =
      apply_change cluster_id (new_manifest resolver new_res)
        (calculate_resource_change a new_res old_res) new_res old_res a
