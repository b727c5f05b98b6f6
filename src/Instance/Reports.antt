-- ===== src/Instance/Reports.antt =====
-- What one cache event sends is what it leaves in the application instance
-- (internal/cluster/application_instance.go, `GetChangesForUpdatedResource`).
use kubernetes_monitor.Prelude.{
  ◌≡◌, String, Option, none, some, Result, ok, failed, string_eq, arith, All, beq_refl, inl, inr,
  Option-cases,
}
use kubernetes_monitor.Prelude.Maps.{lookup, lookup-insert, lookup-delete}
use kubernetes_monitor.Resources.{
  key_eq, DesiredResource, CacheResource, PresentMonitoredResource, ChildMonitoredResource,
  ApplicationInstanceChanges, child_key, new_present_monitored_resource,
  new_missing_monitored_resource, new_child_monitored_resource,
}
use kubernetes_monitor.Resources.Libraries.{Kubernetes}
use kubernetes_monitor.Instance.State.{
  ApplicationInstance, upsert_present_monitored_resource, delete_present_monitored_resource,
  upsert_child_monitored_resource, delete_child_monitored_resource,
  upsert_missing_monitored_resource, delete_missing_monitored_resource,
}
use kubernetes_monitor.Instance.Events.{
  OnResourceUpdated, no_change, desired_resource_found, desired_resource_updated,
  desired_resource_removed, child_resource_found, child_resource_updated, child_resource_removed,
  record_present, record_missing, record_child, upsert_child, apply_change,
  get_changes_for_updated_resource, calculate_resource_change, desired_of,
}
use kubernetes_monitor.Instance.Owners.{get_root_parent_resource, get_parent_resource_id}

-- The state holds each resource that is sent as present, child or missing; a resource sent as
-- missing is not present, and a child sent as deleted is gone.
pub record Reports {M : Type 0} (a : ApplicationInstance M) (c : ApplicationInstanceChanges M)
    : Type 0 where
  pub present :
      All
        (λ r. lookup r.desired_resource_id a.present_monitored_resources ≡ some r)
        c.present_monitored_resources
  pub child :
      All
        (λ r. lookup (child_key r) a.child_monitored_resources ≡ some r)
        c.child_monitored_resources
  pub missing :
      All
        (λ r.
          (lookup r.desired_resource_id a.missing_monitored_resources ≡ some r)
          × (lookup r.desired_resource_id a.present_monitored_resources ≡ none))
        c.missing_monitored_resources
  pub deleted :
      All (λ key. lookup key a.child_monitored_resources ≡ none) c.deleted_child_resource_keys

module _ (k : Kubernetes) where
  open k use {Manifest}

  record_present-Reports :
      (cluster_id : String) (a : ApplicationInstance Manifest)
      (r : Result String (PresentMonitoredResource Manifest)) (id : String)
      (b : ApplicationInstance Manifest) (c : ApplicationInstanceChanges Manifest)
      → record_present k cluster_id (delete_missing_monitored_resource id) a r
        ≡ some (b, ok (some c))
      → Reports b c
  unfolding record_present upsert_present_monitored_resource delete_missing_monitored_resource
  record_present-Reports cluster_id a (failed e) id b c h = cc
  record_present-Reports cluster_id a (ok r) id b c h = ground (
    arith,
    lookup-insert r.desired_resource_id r.desired_resource_id r a.present_monitored_resources,
    beq_refl r.desired_resource_id,
  )

  record_updated-Reports :
      (cluster_id : String) (a : ApplicationInstance Manifest)
      (r : Result String (PresentMonitoredResource Manifest)) (b : ApplicationInstance Manifest)
      (c : ApplicationInstanceChanges Manifest)
      → record_present k cluster_id (λ x. x) a r ≡ some (b, ok (some c))
      → Reports b c
  unfolding record_present upsert_present_monitored_resource
  record_updated-Reports cluster_id a (failed e) b c h = cc
  record_updated-Reports cluster_id a (ok r) b c h = ground (
    arith,
    lookup-insert r.desired_resource_id r.desired_resource_id r a.present_monitored_resources,
    beq_refl r.desired_resource_id,
  )

  record_child-Reports :
      (cluster_id : String) (a : ApplicationInstance Manifest)
      (r : Result String (ChildMonitoredResource Manifest)) (b : ApplicationInstance Manifest)
      (c : ApplicationInstanceChanges Manifest)
      → record_child k cluster_id a r ≡ some (b, ok (some c))
      → Reports b c
  unfolding record_child upsert_child_monitored_resource
  record_child-Reports cluster_id a (failed e) b c h = cc
  record_child-Reports cluster_id a (ok r) b c h = ground (
    arith,
    lookup-insert (child_key r) (child_key r) r a.child_monitored_resources,
    beq_refl (child_key r),
  )

  upsert_child-Reports :
      (cluster_id : String) (a : ApplicationInstance Manifest) (res : CacheResource Manifest)
      (m : Option Manifest) (b : ApplicationInstance Manifest)
      (c : ApplicationInstanceChanges Manifest)
      → upsert_child k cluster_id a res m ≡ some (b, ok (some c))
      → Reports b c
  unfolding upsert_child
  upsert_child-Reports cluster_id a res m b c h =
      let owner = get_parent_resource_id k a res.info in
      elim (Option-cases (get_root_parent_resource owner a.child_monitored_resources)) [
        | inl e ↦ absurd (ground arith)
        | inr (root, e) ↦
            record_child-Reports cluster_id a
              (new_child_monitored_resource k cluster_id res m owner root a.hash_salt) b c
              (ground arith)
      ]

  record_missing-Reports :
      (cluster_id : String) (a : ApplicationInstance Manifest) (d : DesiredResource Manifest)
      (b : ApplicationInstance Manifest) (c : ApplicationInstanceChanges Manifest)
      → record_missing k cluster_id a d ≡ some (b, ok (some c))
      → Reports b c
  unfolding record_missing delete_present_monitored_resource upsert_missing_monitored_resource
      new_missing_monitored_resource
  record_missing-Reports cluster_id a d b c h = ground (
    arith,
    lookup-insert d.id d.id (new_missing_monitored_resource k cluster_id d)
        a.missing_monitored_resources,
    lookup-delete d.id d.id a.present_monitored_resources,
    beq_refl d.id,
  )

  removed_child-Reports :
      (cluster_id : String) (a : ApplicationInstance Manifest)
      (res : Option (CacheResource Manifest)) (m : Option Manifest)
      (new_res : Option (CacheResource Manifest)) (b : ApplicationInstance Manifest)
      (c : ApplicationInstanceChanges Manifest)
      → apply_change k cluster_id m child_resource_removed new_res res a ≡ some (b, ok (some c))
      → Reports b c
  unfolding apply_change delete_child_monitored_resource
  removed_child-Reports cluster_id a none m new_res b c h = cc
  removed_child-Reports cluster_id a (some res) m new_res b c h = ground (
    arith,
    lookup-delete res.info.resource_key res.info.resource_key a.child_monitored_resources,
    beq_refl res.info.resource_key,
  )

  apply_change-Reports :
      (cluster_id : String) (m : Option Manifest) (change : OnResourceUpdated)
      (new_res old_res : Option (CacheResource Manifest)) (a b : ApplicationInstance Manifest)
      (c : ApplicationInstanceChanges Manifest)
      → apply_change k cluster_id m change new_res old_res a ≡ some (b, ok (some c))
      → Reports b c
  unfolding apply_change
  apply_change-Reports cluster_id m no_change new_res old_res a b c h = absurd (ground arith)
  apply_change-Reports cluster_id m desired_resource_found none old_res a b c h =
      absurd (ground arith)
  apply_change-Reports cluster_id m desired_resource_found (some res) old_res a b c h =
      elim (Option-cases (desired_of a (some res))) [
        | inl e ↦ absurd (ground arith)
        | inr (d, e) ↦
            record_present-Reports cluster_id a
              (new_present_monitored_resource k cluster_id res m d a.hash_salt) d.id b c
              (ground arith)
      ]
  apply_change-Reports cluster_id m desired_resource_updated none old_res a b c h =
      absurd (ground arith)
  apply_change-Reports cluster_id m desired_resource_updated (some res) old_res a b c h =
      elim (Option-cases (desired_of a (some res))) [
        | inl e ↦ absurd (ground arith)
        | inr (d, e) ↦
            record_updated-Reports cluster_id a
              (new_present_monitored_resource k cluster_id res m d a.hash_salt) b c (ground arith)
      ]
  apply_change-Reports cluster_id m desired_resource_removed new_res old_res a b c h =
      elim (Option-cases (desired_of a old_res)) [
        | inl e ↦ absurd (ground arith)
        | inr (d, e) ↦ record_missing-Reports cluster_id a d b c (ground arith)
      ]
  apply_change-Reports cluster_id m child_resource_found none old_res a b c h =
      absurd (ground arith)
  apply_change-Reports cluster_id m child_resource_found (some res) old_res a b c h =
      upsert_child-Reports cluster_id a res m b c h
  apply_change-Reports cluster_id m child_resource_updated none old_res a b c h =
      absurd (ground arith)
  apply_change-Reports cluster_id m child_resource_updated (some res) old_res a b c h =
      upsert_child-Reports cluster_id a res m b c h
  apply_change-Reports cluster_id m child_resource_removed new_res old_res a b c h =
      removed_child-Reports cluster_id a old_res m new_res b c h

  -- Whatever the event: if it sends a change set, the application instance afterwards holds every
  -- present, child and missing resource of that set under its id or key, no resource sent as
  -- missing is present, and every child sent as deleted is gone.
  pub get_changes-Reports :
      (cluster_id : String) (resolver : Option (CacheResource Manifest → Option Manifest))
      (new_res old_res : Option (CacheResource Manifest)) (a b : ApplicationInstance Manifest)
      (c : ApplicationInstanceChanges Manifest)
      → get_changes_for_updated_resource k cluster_id resolver new_res old_res a
        ≡ some (b, ok (some c))
      → Reports b c
  unfolding get_changes_for_updated_resource
  get_changes-Reports cluster_id resolver new_res old_res a b c h =
      apply_change-Reports cluster_id _ (calculate_resource_change k a new_res old_res) new_res
        old_res a b c h
