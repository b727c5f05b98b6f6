-- ===== src/Resources/Desired.antt =====
-- internal/cluster/desired_resource.go: a resource that Octopus expects in the cluster. Its
-- namespace counts only once the cluster's discovery says that its type has namespaces.
use kubernetes_monitor.Prelude.{
  ℕ, String, Bool, true, false, not, Option, none, some, List, if◌then◌else◌, ◌&&◌, ◌==◌, string_eq,
  is_some,
}
use kubernetes_monitor.Prelude.Maps.{Map, lookup}
use kubernetes_monitor.Resources.Libraries.{
  Kubernetes, ResourceKey, TypeMeta, OwnerReference, type_meta_eq,
}

pub record ResourceDetails : Type 0 where
  pub name : String
  pub namespace : String
  pub manifest_type : TypeMeta

-- `orphaned_at` is an instant, as a number.
pub record DesiredResource (M : Type 0) : Type 0 where
  pub id : String
  pub details : ResourceDetails
  pub assumed_namespace : String
  pub is_namespace_resolved : Bool
  pub is_cluster_scoped : Bool
  pub version : Option String
  pub manifest : Option M
  pub ignored_fields : List String
  pub orphaned_at : Option ℕ

unfoldable pub is_orphaned : {M : Type 0} → DesiredResource M → Bool
is_orphaned d = is_some d.orphaned_at

unfoldable pub create_resource_details_from_owner_ref : String → OwnerReference → ResourceDetails
create_resource_details_from_owner_ref dependant_namespace owner_ref = record {
  name = owner_ref.name;
  namespace = dependant_namespace;
  manifest_type = record { kind = owner_ref.kind; api_version = owner_ref.api_version };
}

module _ (k : Kubernetes) where
  open k use {Manifest, manifest_namespace, set_manifest_namespace, type_meta_gvk}

  unfoldable pub resource_key : DesiredResource Manifest → ResourceKey
  resource_key d =
      let gvk = type_meta_gvk d.details.manifest_type in
      if not d.is_namespace_resolved
      then record {
        group = gvk.group;
        kind = gvk.kind;
        namespace = d.assumed_namespace;
        name = d.details.name;
      }
      else record {
        group = gvk.group;
        kind = gvk.kind;
        namespace = d.details.namespace;
        name = d.details.name;
      }

  -- `d.Manifest.SetNamespace(d.AssumedNamespace)` under its three conditions.
  unfoldable pub manifest_in_namespace : String → Option Manifest → Option Manifest
  manifest_in_namespace assumed none = none
  manifest_in_namespace assumed (some m) =
      if manifest_namespace m == "" && not (assumed == "")
      then some (set_manifest_namespace assumed m)
      else some m

  -- The resource as the method leaves it, and what it returns.
  unfoldable pub resolve_namespace :
      Map TypeMeta Bool → DesiredResource Manifest → DesiredResource Manifest × Bool
  unfolding manifest_in_namespace
  resolve_namespace namespaced_map d =
      if not d.is_namespace_resolved
      then elim (lookup d.details.manifest_type namespaced_map) [
        | none ↦ (d, false)
        | some is_namespaced ↦ (
          if is_namespaced
              then record d {
                details = record (d.details) { namespace = d.assumed_namespace };
                manifest = manifest_in_namespace d.assumed_namespace d.manifest;
                is_namespace_resolved = true;
              }
              else record d { is_cluster_scoped = true; is_namespace_resolved = true },
          true,
        )
      ]
      else (d, true)
