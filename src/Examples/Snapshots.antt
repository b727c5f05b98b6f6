-- ===== src/Examples/Snapshots.antt =====
-- Runs of the theorems on the snapshot of a cluster that holds one desired Deployment.
use kubernetes_monitor.Prelude.{
  ◌≡◌, List, refl, String, true, false, Option, none, some, [], ◌∷◌, Result, ok, All,
}
use kubernetes_monitor.Prelude.Maps.{Map, values, lookup}
use kubernetes_monitor.Resources.{ResourceKey, key_beq, DesiredResource}
use kubernetes_monitor.Snapshot.{
  SharedCluster, MonitoredResources, mark_unknown, target_objects, resource_is_desired,
  get_monitored_resources,
}
use kubernetes_monitor.Snapshot.Accounts.{Answers, get_monitored_resources-Accounts}
use kubernetes_monitor.Snapshot.{discover, get_first_owner_id}
use kubernetes_monitor.Snapshot.Returns.{ParentsFirst, get_monitored_resources-Returns}
use kubernetes_monitor.Snapshot.Targets.{Comes, target_objects-All}
use kubernetes_monitor.Examples.Toy.{ToyManifest, toy}
use kubernetes_monitor.Examples.Web.{web_key, web_desired, web_resource}

abbrev pub shop : SharedCluster ToyManifest
shop = record {
  namespace_scoped_mode = true;
  target_namespaces = "shop" ∷ [];
  is_excluded_resource = some (λ group kind. false);
  api_resources = record { group = "apps"; kind = "Deployment" } ∷ [];
  is_namespaced = λ gk. ok true;
  get_managed_live_objs = λ targets desired. ok targets;
  iterate_hierarchy = λ keys. (web_resource, []) ∷ [];
  ensure_synced = none;
  server_preferred_resources = ok (some []);
  rest_mapping = none;
  get_live = none;
}

abbrev desired : Map ResourceKey (DesiredResource ToyManifest)
desired = (web_key, web_desired) ∷ []

abbrev none_found : MonitoredResources ToyManifest
none_found = record { present = []; child = []; missing = []; unknown = [] }

abbrev found_by :
    Option (Result String (MonitoredResources ToyManifest)) → MonitoredResources ToyManifest
found_by (some (ok r)) = r
found_by r = none_found

abbrev snapshot : Option (Result String (MonitoredResources ToyManifest))
snapshot = get_monitored_resources toy "machine" shop desired "salt" true

get_monitored_resources-Accounts_example :
    Answers toy "machine" shop desired "salt" true
      (shop.get_managed_live_objs
        (target_objects toy shop
          (mark_unknown toy "machine" shop true (values desired) [])
          (values desired))
        (resource_is_desired toy desired))
      (found_by snapshot)
unfolding get_monitored_resources lookup key_beq
get_monitored_resources-Accounts_example =
    get_monitored_resources-Accounts toy "machine" shop desired "salt" true (found_by snapshot)
      (refl, tt) refl

target_objects-All_example : All (Comes toy "machine" shop (values desired)) (
    target_objects toy shop
      (mark_unknown toy "machine" shop true (values desired) [])
      (values desired))
target_objects-All_example = target_objects-All toy "machine" shop true (values desired)

shop-ParentsFirst : (objects : List ToyManifest) → ParentsFirst toy (discover toy shop objects)
unfolding discover get_first_owner_id
shop-ParentsFirst objects = (refl, (tt, tt))

get_monitored_resources-Returns_example :
    (r : Result String (MonitoredResources ToyManifest)) × (get_monitored_resources toy "machine"
        shop desired "salt" true
      ≡ some r)
get_monitored_resources-Returns_example =
    get_monitored_resources-Returns toy "machine" shop desired "salt" true shop-ParentsFirst
