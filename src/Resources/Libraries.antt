-- ===== src/Resources/Libraries.antt =====
-- The types of the Kubernetes client libraries and of gitops-engine that internal/cluster and
-- internal/health read, and the functions of those libraries that they call, as one interface. None of it is code of this
-- repository. A manifest (`unstructured.Unstructured`) is abstract.
use kubernetes_monitor.Prelude.{
  ◌≡◌, ◌↔◌, Bool, true, ◌&&◌, ℕ, String, Option, List, Result, Eq, ◌==◌, string_eq, arith,
}
use kubernetes_monitor.Prelude.Maps.{Map}

-- `kube.ResourceKey`
pub record ResourceKey : Type 0 where
  pub group : String
  pub kind : String
  pub namespace : String
  pub name : String

-- `schema.GroupKind`, `schema.GroupVersionKind`, `metav1.TypeMeta`
pub record GroupKind : Type 0 where
  pub group : String
  pub kind : String

pub record GroupVersionKind : Type 0 where
  pub group : String
  pub version : String
  pub kind : String

pub record TypeMeta : Type 0 where
  pub kind : String
  pub api_version : String

abbrev pub group_kind : GroupVersionKind → GroupKind
group_kind g = record { group = g.group; kind = g.kind }

-- `metav1.OwnerReference`
pub record OwnerReference : Type 0 where
  pub api_version : String
  pub kind : String
  pub name : String
  pub uid : String

-- `corev1.ObjectReference`
pub record ObjectReference : Type 0 where
  pub kind : String
  pub namespace : String
  pub name : String
  pub uid : String
  pub api_version : String
  pub resource_version : String

-- `health.HealthStatusCode` is a string type with these constants.
pub data HealthStatusCode : Type 0 where
  unknown progressing healthy suspended degraded missing : HealthStatusCode
  other : String → HealthStatusCode

-- `health.HealthStatus`
pub record HealthStatus : Type 0 where
  pub status : HealthStatusCode
  pub message : String

-- What the program reads of `appsv1.Deployment` and `appsv1.ReplicaSet`. The API server admits no
-- negative generation or number of replicas.
pub record Deployment : Type 0 where
  pub paused : Bool
  pub generation : ℕ
  pub observed_generation : ℕ
  pub replicas : Option ℕ
  pub ready_replicas : ℕ

pub record ReplicaSet : Type 0 where
  pub generation : ℕ
  pub observed_generation : ℕ
  pub replicas : Option ℕ
  pub ready_replicas : ℕ

-- `diff.DiffResult`
pub record DiffResult : Type 0 where
  pub modified : Bool
  pub normalized_live : List ℕ
  pub predicted_live : List ℕ

unfoldable pub key_beq : ResourceKey → ResourceKey → Bool
key_beq a b =
    a.group == b.group && (a.kind == b.kind && (a.namespace == b.namespace && a.name == b.name))

pub key_beq_iff : (a b : ResourceKey) → (key_beq a b ≡ true) ↔ (a ≡ b)
unfolding key_beq
key_beq_iff a b = ground (
  arith,
  string_eq.beq_iff a.group b.group,
  string_eq.beq_iff a.kind b.kind,
  string_eq.beq_iff a.namespace b.namespace,
  string_eq.beq_iff a.name b.name,
)

instance abbrev pub key_eq : Eq ResourceKey
key_eq = record { beq = key_beq; beq_iff = key_beq_iff }

unfoldable pub group_kind_beq : GroupKind → GroupKind → Bool
group_kind_beq a b = a.group == b.group && a.kind == b.kind

pub group_kind_beq_iff : (a b : GroupKind) → (group_kind_beq a b ≡ true) ↔ (a ≡ b)
unfolding group_kind_beq
group_kind_beq_iff a b =
    ground (arith, string_eq.beq_iff a.group b.group, string_eq.beq_iff a.kind b.kind)

instance abbrev pub group_kind_eq : Eq GroupKind
group_kind_eq = record { beq = group_kind_beq; beq_iff = group_kind_beq_iff }

unfoldable pub type_meta_beq : TypeMeta → TypeMeta → Bool
type_meta_beq a b = a.kind == b.kind && a.api_version == b.api_version

pub type_meta_beq_iff : (a b : TypeMeta) → (type_meta_beq a b ≡ true) ↔ (a ≡ b)
unfolding type_meta_beq
type_meta_beq_iff a b =
    ground (arith, string_eq.beq_iff a.kind b.kind, string_eq.beq_iff a.api_version b.api_version)

instance abbrev pub type_meta_eq : Eq TypeMeta
type_meta_eq = record { beq = type_meta_beq; beq_iff = type_meta_beq_iff }

unfoldable pub gvk_beq : GroupVersionKind → GroupVersionKind → Bool
gvk_beq a b = a.group == b.group && (a.version == b.version && a.kind == b.kind)

pub gvk_beq_iff : (a b : GroupVersionKind) → (gvk_beq a b ≡ true) ↔ (a ≡ b)
unfolding gvk_beq
gvk_beq_iff a b = ground (
  arith,
  string_eq.beq_iff a.group b.group,
  string_eq.beq_iff a.version b.version,
  string_eq.beq_iff a.kind b.kind,
)

instance abbrev pub gvk_eq : Eq GroupVersionKind
gvk_eq = record { beq = gvk_beq; beq_iff = gvk_beq_iff }

-- What internal/cluster and internal/health call of the libraries.
pub record Kubernetes : Type 1 where
  -- `unstructured.Unstructured`, `GetNamespace`, `SetNamespace`, `GroupVersionKind`
  pub Manifest : Type 0
  pub manifest_namespace : Manifest → String
  pub set_manifest_namespace : String → Manifest → Manifest
  pub manifest_gvk : Manifest → GroupVersionKind
  -- `GetOwnerReferences`, `GetUID`, `GetName`, and `NestedString(obj.Object, "type")` where it succeeds
  pub owner_references : Manifest → List OwnerReference
  pub manifest_uid : Manifest → String
  pub manifest_name : Manifest → String
  pub secret_type : Manifest → Option String
  -- `kube.GetResourceKey`
  pub manifest_key : Manifest → ResourceKey
  -- `GetAnnotations` (nil when there are none), `SetAnnotations`
  pub annotations : Manifest → Option (Map String String)
  pub set_annotations : Map String String → Manifest → Manifest
  -- `Object["data"]` of a Secret, whose values the API defines as strings
  pub secret_data : Manifest → Option (Map String String)
  pub set_secret_data : Map String String → Manifest → Manifest
  -- `TypeMeta.GroupVersionKind`, and the group that `schema.ParseGroupVersion` reads
  pub type_meta_gvk : TypeMeta → GroupVersionKind
  pub parse_group : String → Result String String
  -- `GroupVersionKind.String`
  pub gvk_string : GroupVersionKind → String
  -- `ObjectReference.GroupVersionKind`
  pub reference_gvk : ObjectReference → GroupVersionKind
  -- `cache.Resource.ResourceKey`, which reads the reference
  pub cached_key : ObjectReference → ResourceKey
  -- `diff.Diff`, and `jsonpatch.CreatePatch` followed by `json.Marshal`
  pub diff : Manifest → Manifest → Result String DiffResult
  pub json_patch : List ℕ → List ℕ → Result String String
  -- `health.GetResourceHealth(manifest, override)`
  pub engine_health :
      (Manifest → Result String (Option HealthStatus))
      → Manifest
      → Result String (Option HealthStatus)
  -- `FromUnstructured` into the typed resource
  pub to_deployment : Manifest → Result String Deployment
  pub to_replica_set : Manifest → Result String ReplicaSet
  -- Argo's `GetHealthScript` (the script and `useOpenLibs`) and `ExecuteHealthLua`
  pub health_script : Manifest → Result String (String × Bool)
  pub execute_health_lua : Manifest → String × Bool → Result String (Option HealthStatus)
  -- SHA-256 of the salt followed by the value, in Base64
  pub salted_digest : String → String → String
