-- ===== src/Examples/Toy.antt =====
-- A small cluster on which the theorems are run: manifests are records, and each library function is
-- a concrete one.
use kubernetes_monitor.Prelude.{
  String, false, Option, none, some, List, [], ◌∷◌, ok, ◌==◌, string_eq, if◌then◌else◌, joined,
}
use kubernetes_monitor.Prelude.Maps.{Map}
use kubernetes_monitor.Resources.{GroupVersionKind, OwnerReference}
use kubernetes_monitor.Resources.Libraries.{Kubernetes}

pub record ToyManifest : Type 0 where
  pub gvk : GroupVersionKind
  pub namespace : String
  pub name : String
  pub uid : String
  pub owners : List OwnerReference
  pub labels : Option (Map String String)
  pub entries : Option (Map String String)

abbrev group_of : String → String
group_of s = if s == "v1" then "" else s

abbrev pub toy : Kubernetes
toy = record {
  Manifest = ToyManifest;
  manifest_namespace = λ m. m.namespace;
  set_manifest_namespace = λ n m. record m { namespace = n };
  manifest_gvk = λ m. m.gvk;
  owner_references = λ m. m.owners;
  manifest_uid = λ m. m.uid;
  manifest_name = λ m. m.name;
  secret_type = λ m. none;
  manifest_key = λ m. record {
    group = m.gvk.group;
    kind = m.gvk.kind;
    namespace = m.namespace;
    name = m.name;
  };
  annotations = λ m. m.labels;
  set_annotations = λ a m. record m { labels = some a };
  secret_data = λ m. m.entries;
  set_secret_data = λ a m. record m { entries = some a };
  type_meta_gvk = λ t. record { group = group_of t.api_version; version = "v1"; kind = t.kind };
  parse_group = λ v. ok (group_of v);
  gvk_string = λ g. joined (g.group ∷ "/" ∷ g.kind ∷ []);
  reference_gvk = λ r. record { group = group_of r.api_version; version = "v1"; kind = r.kind };
  cached_key = λ r. record {
    group = group_of r.api_version;
    kind = r.kind;
    namespace = r.namespace;
    name = r.name;
  };
  diff = λ a b. ok (record { modified = false; normalized_live = []; predicted_live = [] });
  json_patch = λ a b. ok "[]";
  engine_health = λ override m. override m;
  to_deployment = λ m. ok (record {
    paused = false;
    generation = 1;
    observed_generation = 1;
    replicas = some 1;
    ready_replicas = 0;
  });
  to_replica_set = λ m.
      ok
        (record { generation = 1; observed_generation = 1; replicas = some 1; ready_replicas = 0 });
  health_script = λ m. ok ("", false);
  execute_health_lua = λ m script. ok none;
  salted_digest = λ salt value. joined (salt ∷ value ∷ []);
}
