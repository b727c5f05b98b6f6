-- ===== src/Examples/Rest.antt =====
-- Runs of the theorems on sanitizing, health, permissions and the subscribers' waits.
use kubernetes_monitor.Prelude.{
  ◌≡◌, ◌↔◌, ◌≤◌, refl, ◌+◌, String, true, false, not, none, some, List, [], ◌∷◌, ok, failed,
}
use kubernetes_monitor.Resources.{
  CacheResource, Deployment, ReplicaSet, HealthStatus, degraded, sanitize_manifest, key_eq,
}
use kubernetes_monitor.Resources.Sanitized.{Accessors, IsSanitized, sanitize_manifest-IsSanitized}
use kubernetes_monitor.Health.{get_apps_v1_deployment_health, get_apps_v1_replica_set_health}
use kubernetes_monitor.Health.Degraded.{HasNoneReady, degraded_iff}
use kubernetes_monitor.Permissions.{ResourceRule, refresh_loop, is_excluded_resource}
use kubernetes_monitor.Permissions.Allowed.{
  Tick, discovered_and_granted, is_excluded_resource-refresh,
}
use kubernetes_monitor.Snapshot.{ApiResourceList}
use kubernetes_monitor.Communication.{calculate_backoff, wait_for, retry}
use kubernetes_monitor.Communication.Backoff.{calculate_backoff-le}
use kubernetes_monitor.Communication.Subscriber.{
  Input, message, broken, Subscriber, start_subscriber, breaks_since, retry_count-start_subscriber,
}
use kubernetes_monitor.Examples.Toy.{ToyManifest, toy}
use kubernetes_monitor.Examples.Web.{web_resource}

toy-Accessors : Accessors toy
toy-Accessors = record {
  annotations_set = λ a m. refl;
  secret_data_set = λ d m. refl;
  annotations_kept = λ d m. refl;
  secret_data_kept = λ a m. refl;
}

abbrev password : ToyManifest
password = record {
  gvk = record { group = ""; version = "v1"; kind = "Secret" };
  namespace = "shop";
  name = "password";
  uid = "uid-password";
  owners = [];
  labels = some (("kubectl.kubernetes.io/last-applied-configuration", "{}") ∷ []);
  entries = some (("key", "value") ∷ []);
}

abbrev password_resource : CacheResource ToyManifest
password_resource = record web_resource {
  ref = record {
    kind = "Secret";
    namespace = "shop";
    name = "password";
    uid = "uid-password";
    api_version = "v1";
    resource_version = "1";
  };
}

sanitize_manifest-IsSanitized_example :
    (sent : ToyManifest) × ((sanitize_manifest toy password_resource (some password) "salt"
        ≡ some (some sent))
      × IsSanitized toy password_resource password "salt" sent)
sanitize_manifest-IsSanitized_example =
    sanitize_manifest-IsSanitized toy toy-Accessors password_resource password "salt" refl

abbrev stuck : Deployment
stuck = record {
  paused = false;
  generation = 2;
  observed_generation = 2;
  replicas = some 3;
  ready_replicas = 0;
}

abbrev stuck_set : ReplicaSet
stuck_set = record {
  generation = 2;
  observed_generation = 2;
  replicas = some 3;
  ready_replicas = 0;
}

degraded_iff_example :
    (((s : HealthStatus) × ((get_apps_v1_deployment_health stuck ≡ ok (some s))
          × (s.status ≡ degraded)))
      ↔ ((false ≡ false) × HasNoneReady 2 2 (some 3) 0))
    × (((s : HealthStatus) × ((get_apps_v1_replica_set_health stuck_set ≡ ok (some s))
            × (s.status ≡ degraded)))
        ↔ HasNoneReady 2 2 (some 3) 0)
degraded_iff_example = degraded_iff stuck stuck_set

abbrev rules : List ResourceRule
rules =
    record {
      verbs = "*" ∷ [];
      api_groups = "apps" ∷ [];
      resources = "deployments" ∷ [];
      resource_names = [];
    }
    ∷ []

abbrev types : List ApiResourceList
types =
    record {
      group_version = "apps/v1";
      api_resources = record { kind = "Deployment"; name = "deployments"; namespaced = true } ∷ [];
    }
    ∷ []

-- Discovery fails at the first tick, the review at the second.
abbrev failing : List Tick
failing = (failed "timeout", ok rules) ∷ (ok types, failed "refused") ∷ []

is_excluded_resource-refresh_example :
    is_excluded_resource
      (refresh_loop ((ok [], ok []) ∷ (ok types, ok rules) ∷ failing) [])
      "apps"
      "Deployment"
    ≡ not (discovered_and_granted rules (record { group = "apps"; kind = "Deployment" }) types)
is_excluded_resource-refresh_example =
    is_excluded_resource-refresh ((ok [], ok []) ∷ []) failing types rules [] "apps" "Deployment"
      (tt, (tt, tt))

calculate_backoff-le_example :
    (calculate_backoff 3 ≤ calculate_backoff (3 + 2)) × (calculate_backoff 3 ≤ 180)
calculate_backoff-le_example = calculate_backoff-le 2 3

abbrev dropped : Input String
dropped = broken (record {
  err = "EOF";
  cancelled = false;
  cancelled_before_wait = false;
  cancelled_in_wait = false;
  classify = λ e. retry;
  wrapped = λ e. none;
  connect = none;
})

abbrev fresh : Subscriber String
fresh = record { retry_count = 0; continues = true; reported = [] }

retry_count-start_subscriber_example :
    (start_subscriber (dropped ∷ message ∷ dropped ∷ dropped ∷ []) fresh).retry_count
    ≡ breaks_since 0 (dropped ∷ message ∷ dropped ∷ dropped ∷ [])
unfolding start_subscriber wait_for calculate_backoff
retry_count-start_subscriber_example =
    retry_count-start_subscriber (dropped ∷ message ∷ dropped ∷ dropped ∷ []) fresh refl refl
