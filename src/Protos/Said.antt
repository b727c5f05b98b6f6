-- ===== src/Protos/Said.antt =====
-- What a message of internal/protos says of the resource that it stands for: read by the protocol's fields,
-- not by the code that fills them. And when a resource cannot be sent.
use kubernetes_monitor.Prelude.{◌≡◌, ◌≢◌, String, Option, none, some, List, [], ◌∷◌, Result, ok}
use kubernetes_monitor.Resources as Resources
use kubernetes_monitor.Resources.{HealthStatus, HealthStatusCode}
use kubernetes_monitor.Protos.Messages.{
  ResourceStatusCode, ResourceStatus, ResourceDetails, ResourceKey, PresentMonitoredResource,
  ChildMonitoredResource, MissingMonitoredResource, UnknownMonitoredResource,
}
use kubernetes_monitor.Protos.Codes.{read_health_code, read_sync}

-- A code that the engine does not have is sent as unspecified.
abbrev pub SaysCode : HealthStatusCode → ResourceStatusCode → Type 0
SaysCode (HealthStatusCode.other text) code = code ≡ ResourceStatusCode.unspecified
SaysCode named code = read_health_code code ≡ some named

abbrev pub SaysHealth : Option HealthStatus → ResourceStatus → Type 0
SaysHealth none sent =
    (sent.message ≡ "Status not applicable")
    × (sent.resource_status_code ≡ ResourceStatusCode.not_applicable)
SaysHealth (some s) sent = (sent.message ≡ s.message) × SaysCode s.status sent.resource_status_code

pub record SaysDetails (gvk : Resources.GroupVersionKind) (name namespace : String)
    (sent : ResourceDetails) : Type 0 where
  pub says_name : sent.name ≡ name
  pub says_namespace : sent.kubernetes_namespace ≡ namespace
  pub says_group : sent.group_version_kind.group ≡ gvk.group
  pub says_version : sent.group_version_kind.version ≡ gvk.version
  pub says_kind : sent.group_version_kind.kind ≡ gvk.kind

pub record SaysMissing (r : Resources.MissingMonitoredResource) (sent : MissingMonitoredResource)
    : Type 0 where
  pub says_id : sent.desired_resource_id.value ≡ r.desired_resource_id
  pub says_cluster : sent.cluster_id.value ≡ r.cluster_id
  pub says_details : SaysDetails r.group_version_kind r.name r.namespace sent.resource_details
  pub says_health : SaysHealth r.status sent.resource_status
  pub says_sync : read_sync sent.resource_sync_status ≡ r.sync_status

pub record SaysUnknown (r : Resources.UnknownMonitoredResource) (sent : UnknownMonitoredResource)
    : Type 0 where
  pub says_id : sent.desired_resource_id.value ≡ r.desired_resource_id
  pub says_cluster : sent.cluster_id.value ≡ r.cluster_id
  pub says_health : SaysHealth r.status sent.resource_status
  pub says_sync : read_sync sent.resource_sync_status ≡ r.sync_status

pub record SaysKey (key : Resources.ResourceKey) (sent : ResourceKey) : Type 0 where
  pub says_group : sent.group ≡ key.group
  pub says_kind : sent.kind ≡ key.kind
  pub says_namespace : sent.kubernetes_namespace ≡ key.namespace
  pub says_name : sent.name ≡ key.name

module _ {M : Type 0} (marshal : M → Result String String) where
  -- The sanitized manifest, as the marshalled text.
  abbrev pub SaysManifest : Option M → String → Type 0
  SaysManifest manifest text = (m : M) × (manifest ≡ some m) × (marshal m ≡ ok text)

  pub record SaysPresent (r : Resources.PresentMonitoredResource M)
      (sent : PresentMonitoredResource) : Type 0 where
    pub says_uid : sent.resource_uuid.value ≡ r.resource_id
    pub says_id : sent.desired_resource_id.value ≡ r.desired_resource_id
    pub says_cluster : sent.cluster_id.value ≡ r.cluster_id
    pub says_details : SaysDetails r.group_version_kind r.name r.namespace sent.resource_details
    pub says_health : SaysHealth r.status sent.resource_status
    pub says_sync : read_sync sent.resource_sync_status ≡ r.sync_status
    pub says_manifest : SaysManifest r.manifest sent.manifest.value

  pub record SaysChild (r : Resources.ChildMonitoredResource M) (sent : ChildMonitoredResource)
      : Type 0 where
    pub says_uid : sent.resource_uuid.value ≡ r.resource_id
    pub says_owner : sent.parent_resource_uuid.value ≡ r.owner_id
    pub says_root : sent.root_parent_resource_uuid.value ≡ r.root_owner_id
    pub says_cluster : sent.cluster_id.value ≡ r.cluster_id
    pub says_details : SaysDetails r.group_version_kind r.name r.namespace sent.resource_details
    pub says_health : SaysHealth r.status sent.resource_status
    pub says_manifest : SaysManifest r.manifest sent.manifest.value

  -- A child that can be sent.
  pub record IsSendableChild (r : Resources.ChildMonitoredResource M) : Type 0 where
    pub has_id : r.resource_id ≢ ""
    pub has_owner : r.owner_id ≢ ""
    pub has_root : r.root_owner_id ≢ ""
    pub text : String
    pub marshalled : SaysManifest r.manifest text

-- Each message says its resource, in order.
abbrev pub SayAll : {A B : Type 0} → (A → B → Type 0) → List A → List B → Type 0
SayAll Says [] [] = Unit {0}
SayAll Says [] (s ∷ ss) = ⊥
SayAll Says (r ∷ rs) [] = ⊥
SayAll Says (r ∷ rs) (s ∷ ss) = Says r s × SayAll Says rs ss

-- In order, each resource that can be sent has its message, and each other one its error.
pub data Sends {A B : Type 0} (Can : A → Type 0) (Says : A → B → Type 0)
    : List A → List B → List String → Type 0 where
  done : Sends Can Says [] [] []
  mapped :
      {r : A} {s : B} {rs : List A} {ss : List B} {errors : List String}
      → Can r
      → Says r s
      → Sends Can Says rs ss errors
      → Sends Can Says (r ∷ rs) (s ∷ ss) errors
  unmapped :
      {r : A} {rs : List A} {ss : List B} {errors : List String}
      → (e : String) → ¬ Can r
      → Sends Can Says rs ss errors
      → Sends Can Says (r ∷ rs) ss (e ∷ errors)
