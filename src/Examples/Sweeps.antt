-- ===== src/Examples/Sweeps.antt =====
-- Runs of the theorems on what is passed on, and on a tick over one target that waits for its Deployment.
use kubernetes_monitor.Prelude.{
  ◌≡◌, ℕ, String, false, Option, none, some, List, [], ◌∷◌, Result, ok, refl, length,
}
use mathlib.Core.List.{Memᴰ}
use kubernetes_monitor.Prelude.Maps.{lookup, insert}
use kubernetes_monitor.Resources.{
  ApplicationInstanceChanges, resolve_namespace, resource_key, key_beq,
}
use kubernetes_monitor.Registry.{ensure}
use kubernetes_monitor.Instance.State as Instance
use kubernetes_monitor.Instance.{get_root_parent_resource, empty_changes}
use kubernetes_monitor.Snapshot.Connection.{add_resource_lists}
use kubernetes_monitor.ClusterState.{merge_desired}
use kubernetes_monitor.ClusterState.Sweep.{monitored_resource_updates}
use kubernetes_monitor.Targets.{Outgoing, update, Effect}
use kubernetes_monitor.Targets
use kubernetes_monitor.Protos.Messages.{ReplaceMonitoredResourcesRequest}
use kubernetes_monitor.Protos.Commands.{to_cluster_desired_resource_for_version}
use kubernetes_monitor.Commands.{Monitor, handle, target_of}
use kubernetes_monitor.Reports.Mapped.{
  sent_of, IsMapped, IsPassedOn, by_command, passed_on-IsMapped,
}
use kubernetes_monitor.Sweeps.{Sweep, application_instance_updates, update_monitored_resources}
use kubernetes_monitor.Sweeps.Answered.{AreAnswered, update_monitored_resources-AreAnswered}
use kubernetes_monitor.Examples.Toy.{ToyManifest, toy}
use kubernetes_monitor.Examples.Web.{waiting}
use kubernetes_monitor.Examples.Snapshots.{shop}
use kubernetes_monitor.Examples.Targets.{waiting_target}
use kubernetes_monitor.Examples.Commands.{unmarshal, meets, command, new_monitor}

abbrev marshal : ToyManifest → Result String String
marshal m = ok "kind: Deployment"

abbrev first_of : List (Outgoing ToyManifest) → Outgoing ToyManifest
first_of [] = update (empty_changes toy "machine" waiting)
first_of (o ∷ os) = o

-- The report of the snapshot that the command takes.
abbrev reported : Outgoing ToyManifest
reported = first_of (sent_of (handle toy [] unmarshal false meets command new_monitor))

reported-IsPassedOn : IsPassedOn toy [] unmarshal ℕ String false reported
unfolding handle ensure lookup to_cluster_desired_resource_for_version
    Targets.merge_desired_resources insert merge_desired Instance.merge_desired_resources
    resolve_namespace add_resource_lists key_beq resource_key get_root_parent_resource
reported-IsPassedOn = by_command meets command new_monitor (Memᴰ.head refl)

passed_on-IsMapped_example : IsMapped marshal reported
passed_on-IsMapped_example =
    passed_on-IsMapped toy [] unmarshal ℕ String false marshal reported reported-IsPassedOn

abbrev met : Sweep ToyManifest
met = record {
  registry_refuses = none;
  target_refuses = λ id. none;
  sync_error = none;
  cluster = shop;
}

abbrev watched : Monitor ToyManifest ℕ String
watched = record {
  registry = record {
    shared = some "connection";
    clusters = ("machine", record { cluster_id = "machine"; shared = "connection" }) ∷ [];
  };
  states = ("machine", waiting_target.state) ∷ [];
  interests = waiting_target.interests;
}

abbrev Found : Type 0
Found = Option (Monitor ToyManifest ℕ String × List (ApplicationInstanceChanges ToyManifest))

abbrev found : Found
found = application_instance_updates toy [] false met watched

abbrev monitor_found : Found → Monitor ToyManifest ℕ String
monitor_found none = watched
monitor_found (some (m, updates)) = m

abbrev updates_found : Found → List (ApplicationInstanceChanges ToyManifest)
updates_found none = []
updates_found (some (m, updates)) = updates

update_monitored_resources-AreAnswered_example :
    (requests : List (ReplaceMonitoredResourcesRequest × List String)) × (update_monitored_resources
        toy [] false met marshal watched
      ≡ some (monitor_found found, requests))
    × AreAnswered marshal (updates_found found) requests
unfolding application_instance_updates monitored_resource_updates lookup key_beq insert
    resolve_namespace resource_key Targets.application_instance_updates target_of
update_monitored_resources-AreAnswered_example =
    update_monitored_resources-AreAnswered toy [] false met marshal watched (monitor_found found)
      (updates_found found) refl

-- The sweep reports the one instance.
found_one : length (updates_found found) ≡ 1
unfolding application_instance_updates monitored_resource_updates lookup key_beq insert
    resolve_namespace resource_key Targets.application_instance_updates target_of
found_one = refl
