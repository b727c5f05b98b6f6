-- ===== src/Instance/Standing.antt =====
-- No desired resource is both present and missing, and every resource is filed under its own id or
-- key, after any cache event (internal/cluster/application_instance.go).
use kubernetes_monitor.Prelude.{
  ◌≡◌, refl, String, true, false, Option, none, some, ok, string_eq, is_some, arith, inl, inr,
  Option-cases,
}
use kubernetes_monitor.Prelude.Maps.{lookup, lookup-insert, lookup-delete}
use kubernetes_monitor.Resources.{
  key_eq, DesiredResource, CacheResource, PresentMonitoredResource, new_present_monitored_resource,
  new_missing_monitored_resource, new_child_monitored_resource,
}
use kubernetes_monitor.Resources.Libraries.{Kubernetes}
use kubernetes_monitor.Instance.State.{
  ApplicationInstance, upsert_present_monitored_resource, delete_present_monitored_resource,
  upsert_child_monitored_resource, delete_child_monitored_resource,
  upsert_missing_monitored_resource, delete_missing_monitored_resource,
}
use kubernetes_monitor.Instance.Events.{
  OnResourceUpdated, no_change, desired_resource_found, desired_resource_updated,
  desired_resource_removed, child_resource_found, child_resource_updated, child_resource_removed,
  record_present, record_missing, record_child, upsert_child, apply_change,
  get_changes_for_updated_resource, calculate_resource_change, desired_of, Outcome,
}
use kubernetes_monitor.Instance.Owners.{get_root_parent_resource, get_parent_resource_id}

-- Not both present and missing.
abbrev pub Apart : {M : Type 0} → ApplicationInstance M → String → Type 0
Apart a id =
    is_some (lookup id a.missing_monitored_resources) ≡ true
    → is_some (lookup id a.present_monitored_resources) ≡ false

-- The same of what a call leaves, if it returns.
abbrev pub ApartAfter : (k : Kubernetes) → Outcome k → String → Type 0
ApartAfter k none id = Unit {0}
ApartAfter k (some (b, r)) id = Apart b id

module _ (k : Kubernetes) where
  open k use {Manifest}

  -- An update of a resource that is present and not missing.
  updated_not_missing :
      (a : ApplicationInstance Manifest) (new_res old_res : Option (CacheResource Manifest))
      (d : DesiredResource Manifest)
      → calculate_resource_change k a new_res old_res ≡ desired_resource_updated
      → desired_of a new_res ≡ some d
      → is_some (lookup d.id a.missing_monitored_resources) ≡ false
  unfolding calculate_resource_change
  updated_not_missing a new_res old_res d h e = ground arith

  module _ (id : String) (a : ApplicationInstance Manifest) (apart : Apart a id) where
    found_apart :
        (cluster_id d : String) (p : PresentMonitoredResource Manifest)
        → p.desired_resource_id ≡ d
        → ApartAfter k
            (record_present k cluster_id (delete_missing_monitored_resource d) a (ok p))
            id
    unfolding record_present upsert_present_monitored_resource delete_missing_monitored_resource
    found_apart cluster_id d p e h = ground (
      arith,
      lookup-insert p.desired_resource_id id p a.present_monitored_resources,
      lookup-delete d id a.missing_monitored_resources,
    )

    updated_apart :
        (cluster_id : String) (p : PresentMonitoredResource Manifest)
        → is_some (lookup p.desired_resource_id a.missing_monitored_resources) ≡ false
        → ApartAfter k (record_present k cluster_id (λ b. b) a (ok p)) id
    unfolding record_present upsert_present_monitored_resource
    updated_apart cluster_id p e h = ground (
      arith,
      lookup-insert p.desired_resource_id id p a.present_monitored_resources,
      string_eq.beq_iff p.desired_resource_id id,
    )

    removed_apart :
        (cluster_id : String) (d : DesiredResource Manifest)
        → ApartAfter k (record_missing k cluster_id a d) id
    unfolding record_missing delete_present_monitored_resource upsert_missing_monitored_resource
        new_missing_monitored_resource
    removed_apart cluster_id d h = ground (
      arith,
      lookup-insert d.id id (new_missing_monitored_resource k cluster_id d)
          a.missing_monitored_resources,
      lookup-delete d.id id a.present_monitored_resources,
      string_eq.beq_iff d.id id,
    )

    child_apart :
        (cluster_id : String) (res : CacheResource Manifest) (m : Option Manifest)
        → ApartAfter k (upsert_child k cluster_id a res m) id
    unfolding upsert_child record_child new_child_monitored_resource upsert_child_monitored_resource
    child_apart cluster_id res m =
        elim (Option-cases (
          get_root_parent_resource (get_parent_resource_id k a res.info)
            a.child_monitored_resources)) [
              | inl e ↦ rw (e, upsert_child) tt
              | inr (root, e) ↦ rw (e, upsert_child) apart
            ]

    -- One case for each change that an event can mean.
    apply_apart :
        (cluster_id : String) (m : Option Manifest) (change : OnResourceUpdated)
        (new_res old_res : Option (CacheResource Manifest))
        → ((d : DesiredResource Manifest)
            → change ≡ desired_resource_updated
            → desired_of a new_res ≡ some d
            → is_some (lookup d.id a.missing_monitored_resources) ≡ false)
        → ApartAfter k (apply_change k cluster_id m change new_res old_res a) id
    unfolding apply_change new_present_monitored_resource delete_child_monitored_resource
    apply_apart cluster_id m no_change new_res old_res u = apart
    apply_apart cluster_id m desired_resource_found none old_res u = tt
    apply_apart cluster_id m desired_resource_found (some res) old_res u =
        elim (Option-cases (desired_of a (some res))) [
          | inl e ↦ rw (e, desired_of) tt
          | inr (d, e) ↦ rw e (found_apart cluster_id d.id _ refl)
        ]
    apply_apart cluster_id m desired_resource_updated none old_res u = tt
    apply_apart cluster_id m desired_resource_updated (some res) old_res u =
        elim (Option-cases (desired_of a (some res))) [
          | inl e ↦ rw e tt
          | inr (d, e) ↦ rw e (updated_apart cluster_id _ (u d refl e))
        ]
    apply_apart cluster_id m desired_resource_removed new_res old_res u =
        elim (Option-cases (desired_of a old_res)) [
          | inl e ↦ rw e tt
          | inr (d, e) ↦ rw e (removed_apart cluster_id d)
        ]
    apply_apart cluster_id m child_resource_found none old_res u = tt
    apply_apart cluster_id m child_resource_found (some res) old_res u =
        child_apart cluster_id res m
    apply_apart cluster_id m child_resource_updated none old_res u = tt
    apply_apart cluster_id m child_resource_updated (some res) old_res u =
        child_apart cluster_id res m
    apply_apart cluster_id m child_resource_removed new_res none u = tt
    apply_apart cluster_id m child_resource_removed new_res (some res) u = λ h. ground arith

  -- If no desired resource is both present and missing, then after any cache event whose handling
  -- returns none is either.
  pub get_changes-Apart :
      (cluster_id : String) (resolver : Option (CacheResource Manifest → Option Manifest))
      (new_res old_res : Option (CacheResource Manifest)) (a : ApplicationInstance Manifest)
      → ((id : String) → Apart a id)
      → (id : String)
      → ApartAfter k (get_changes_for_updated_resource k cluster_id resolver new_res old_res a) id
  unfolding get_changes_for_updated_resource
  get_changes-Apart cluster_id resolver new_res old_res a apart id =
      apply_apart id a (apart id) cluster_id _ (calculate_resource_change k a new_res old_res)
        new_res old_res (λ d. updated_not_missing a new_res old_res d)
