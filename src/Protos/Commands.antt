-- ===== src/Protos/Commands.antt =====
-- internal/protos/command_mappers.go: a desired resource as a command carries it. `none` in place of a
-- resource is the panic on a command whose resource has no details, or details with no kind.
use kubernetes_monitor.Prelude.{
  ℕ, String, false, Option, none, some, [], ◌∷◌, Result, ok, failed, ◌==◌, string_eq, not,
  if◌then◌else◌, joined, ◌||◌,
}
use kubernetes_monitor.Resources as Resources
use kubernetes_monitor.Protos.Messages.{
  GroupVersionKind, Version, YamlManifest, DesiredResourceDetails, DesiredResource,
}
use kubernetes_monitor.Protos.{version_from_proto_or_nil, desired_resource_id_from_proto}

unfoldable pub api_version_of : GroupVersionKind → String
api_version_of gvk =
    if not (gvk.group == "") then joined (gvk.group ∷ "/" ∷ gvk.version ∷ []) else gvk.version

-- `AsTime` of an instant is that instant.
unfoldable pub to_orphaned_at : Option ℕ → Option ℕ
to_orphaned_at none = none
to_orphaned_at (some orphaned_at) = some orphaned_at

-- `v.GetManifest().GetValue()`
abbrev pub manifest_value : Option YamlManifest → String
manifest_value none = ""
manifest_value (some manifest) = manifest.value

module _ {M : Type 0} (unmarshal : String → Result String M) where
  unfoldable pub unmarshal_to_unstructured : String → Option M
  unmarshal_to_unstructured manifest =
      if manifest == "" || manifest == "null"
      then none
      else elim (unmarshal manifest) [ failed e ↦ none | ok unstructured ↦ some unstructured ]

  unfoldable pub to_cluster_desired_resource_with :
      Option String
      → DesiredResource
      → DesiredResourceDetails
      → GroupVersionKind
      → Resources.DesiredResource M
  unfolding api_version_of to_orphaned_at unmarshal_to_unstructured
  to_cluster_desired_resource_with version v details gvk = record {
    id = desired_resource_id_from_proto v.desired_resource_id;
    details = record {
      name = details.name;
      namespace = "";
      manifest_type = record { kind = gvk.kind; api_version = api_version_of gvk };
    };
    assumed_namespace = details.assumed_namespace;
    is_namespace_resolved = false;
    is_cluster_scoped = false;
    version = version;
    manifest = unmarshal_to_unstructured (manifest_value v.manifest);
    ignored_fields = [];
    orphaned_at = to_orphaned_at v.orphaned_at;
  }

  unfoldable pub to_cluster_desired_resource_at :
      Option String → DesiredResource → Option (Resources.DesiredResource M)
  unfolding to_cluster_desired_resource_with
  to_cluster_desired_resource_at version v = elim v.resource_details [
    | none ↦ none
    | some details ↦ elim details.group_version_kind [
      | none ↦ none
      | some gvk ↦ some (to_cluster_desired_resource_with version v details gvk)
    ]
  ]

  unfoldable pub to_cluster_desired_resource :
      DesiredResource → Option (Resources.DesiredResource M)
  unfolding to_cluster_desired_resource_at
  to_cluster_desired_resource v = to_cluster_desired_resource_at none v

  unfoldable pub to_cluster_desired_resource_for_version :
      Option Version → DesiredResource → Option (Resources.DesiredResource M)
  unfolding to_cluster_desired_resource_at
  to_cluster_desired_resource_for_version version v =
      to_cluster_desired_resource_at (version_from_proto_or_nil version) v
