-- ===== src/Examples/Web.antt =====
-- One application instance: a Deployment that is desired and not yet found, and the Endpoints object of
-- a Service.
use kubernetes_monitor.Prelude.{String, true, false, Option, none, some, [], ◌∷◌, Result, ok}
use kubernetes_monitor.Prelude.Maps.{Map}
use kubernetes_monitor.Resources.{
  ResourceKey, DesiredResource, CacheResource, ApplicationInstanceChanges, ChildMonitoredResource,
  MissingMonitoredResource,
}
use kubernetes_monitor.Instance.{
  ApplicationInstance, get_changes_for_updated_resource, upsert_child, Outcome, empty_changes,
}
use kubernetes_monitor.Resources.Libraries.{missing}
use kubernetes_monitor.Resources.Sync.{out_of_sync}
use kubernetes_monitor.Examples.Toy.{ToyManifest, toy}

abbrev pub web_manifest : ToyManifest
web_manifest = record {
  gvk = record { group = "apps"; version = "v1"; kind = "Deployment" };
  namespace = "shop";
  name = "web";
  uid = "uid-web";
  owners = [];
  labels = none;
  entries = none;
}

abbrev pub web_key : ResourceKey
web_key = record { group = "apps"; kind = "Deployment"; namespace = "shop"; name = "web" }

abbrev pub web_desired : DesiredResource ToyManifest
web_desired = record {
  id = "web-id";
  details = record {
    name = "web";
    namespace = "shop";
    manifest_type = record { kind = "Deployment"; api_version = "apps" };
  };
  assumed_namespace = "shop";
  is_namespace_resolved = true;
  is_cluster_scoped = false;
  version = some "1.0";
  manifest = some web_manifest;
  ignored_fields = [];
  orphaned_at = none;
}

abbrev pub web_resource : CacheResource ToyManifest
web_resource = record {
  resource_version = "7";
  ref = record {
    kind = "Deployment";
    namespace = "shop";
    name = "web";
    uid = "uid-web";
    api_version = "apps";
    resource_version = "7";
  };
  owner_refs = [];
  info = record { resource_key = web_key; owner_refs = [] };
  resource = some web_manifest;
}

abbrev pub web_missing : MissingMonitoredResource
web_missing = record {
  cluster_id = "machine";
  desired_resource_id = "web-id";
  status = some (record { status = missing; message = "" });
  sync_status = record { status = out_of_sync; message = ""; json_patch = "" };
  group_version_kind = record { group = "apps"; version = "v1"; kind = "Deployment" };
  name = "web";
  namespace = "shop";
}

-- Expects the Deployment, and has reported it missing.
abbrev pub waiting : ApplicationInstance ToyManifest
waiting = record {
  application_instance_id = "shop";
  hash_salt = "salt";
  desired_resources = (web_key, web_desired) ∷ [];
  present_monitored_resources = [];
  child_monitored_resources = [];
  missing_monitored_resources = ("web-id", web_missing) ∷ [];
  unknown_monitored_resources = [];
  tracked_resource_keys = [];
}

-- What a call leaves, and what it sends.
abbrev pub left_by : Outcome toy → ApplicationInstance ToyManifest
left_by none = waiting
left_by (some (a, r)) = a

abbrev pub changes_of :
    Result String (Option (ApplicationInstanceChanges ToyManifest))
    → ApplicationInstanceChanges ToyManifest
changes_of (ok (some c)) = c
changes_of r = empty_changes toy "machine" waiting

abbrev pub sent_by : Outcome toy → ApplicationInstanceChanges ToyManifest
sent_by none = empty_changes toy "machine" waiting
sent_by (some (a, r)) = changes_of r

abbrev pub web_arrives : Outcome toy
web_arrives =
    get_changes_for_updated_resource toy "machine" (some (λ res. res.resource)) (some web_resource)
      none waiting

abbrev pub endpoints_manifest : ToyManifest
endpoints_manifest = record {
  gvk = record { group = ""; version = "v1"; kind = "Endpoints" };
  namespace = "shop";
  name = "web";
  uid = "uid-endpoints";
  owners = [];
  labels = none;
  entries = none;
}

abbrev pub endpoints_resource : CacheResource ToyManifest
endpoints_resource = record {
  resource_version = "3";
  ref = record {
    kind = "Endpoints";
    namespace = "shop";
    name = "web";
    uid = "uid-endpoints";
    api_version = "v1";
    resource_version = "3";
  };
  owner_refs = [];
  info = record {
    resource_key = record { group = ""; kind = "Endpoints"; namespace = "shop"; name = "web" };
    owner_refs =
        record { api_version = "v1"; kind = "Service"; name = "web"; uid = "uid-endpoints" } ∷ [];
  };
  resource = none;
}

abbrev pub endpoints_arrive : Outcome toy
endpoints_arrive = upsert_child toy "machine" waiting endpoints_resource none

-- A pod of a replica set of the Deployment.
abbrev pub owned : String → String → String → String → ChildMonitoredResource ToyManifest
owned kind name owner uid = record {
  cluster_id = "machine";
  owner_id = owner;
  resource_id = uid;
  root_owner_id = "uid-web";
  status = none;
  manifest = none;
  group_version_kind = record { group = ""; version = "v1"; kind = kind };
  name = name;
  namespace = "shop";
  resource_version = "1";
}

abbrev pub key_of : String → String → ResourceKey
key_of kind name = record { group = ""; kind = kind; namespace = "shop"; name = name }

abbrev pub children : Map ResourceKey (ChildMonitoredResource ToyManifest)
children =
    (key_of "ReplicaSet" "web-1", owned "ReplicaSet" "web-1" "uid-web" "uid-set")
    ∷ (key_of "Pod" "web-1-a", owned "Pod" "web-1-a" "uid-set" "uid-pod")
    ∷ []
