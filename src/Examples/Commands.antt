-- ===== src/Examples/Commands.antt =====
-- A run of the theorem on commands: the first one names a machine that the monitor does not know yet.
use kubernetes_monitor.Prelude.{
  ◌≡◌, ℕ, String, false, Option, none, some, [], ◌∷◌, Result, ok, refl, length,
}
use kubernetes_monitor.Prelude.Maps.{lookup, insert}
use kubernetes_monitor.Registry.{new_registry, ensure}
use kubernetes_monitor.Protos.Messages.{ServerToClientStream, update_desired_resources_command}
use kubernetes_monitor.Commands.{Monitor, Meets, handle}
use kubernetes_monitor.Commands.Isolated.{AreFiled, Handled, named, handle-Isolates}
use kubernetes_monitor.Targets.{Effect}
use kubernetes_monitor.Targets
use kubernetes_monitor.Protos.Commands.{to_cluster_desired_resource_for_version}
use kubernetes_monitor.ClusterState.{merge_desired}
use kubernetes_monitor.Instance.State as Instance
use kubernetes_monitor.Instance.Owners.{get_root_parent_resource}
use kubernetes_monitor.Resources.{resolve_namespace, resource_key, key_beq}
use kubernetes_monitor.Snapshot.Connection.{add_resource_lists}
use kubernetes_monitor.Examples.Toy.{ToyManifest, toy}
use kubernetes_monitor.Examples.Web.{web_manifest}
use kubernetes_monitor.Examples.Snapshots.{shop}

abbrev pub unmarshal : String → Result String ToyManifest
unmarshal text = ok web_manifest

abbrev pub meets : Meets ToyManifest ℕ String
meets = record {
  registry_refuses = none;
  target_refuses = none;
  connect = ok "connection";
  subscribe_error = none;
  changes = 1;
  clusters = λ n. shop;
}

abbrev pub new_monitor : Monitor ToyManifest ℕ String
new_monitor = record {
  registry = new_registry;
  states = [];
  interests = record { keys_by_target = []; targets_by_resource = []; subscribers = [] };
}

abbrev pub command : ServerToClientStream
command = update_desired_resources_command (record {
  application_instance_id = some (record { value = "shop" });
  cluster_id = some (record { value = "machine" });
  version = none;
  desired_resources =
      record {
        desired_resource_id = some (record { value = "desired-1" });
        resource_details = some (record {
          name = "web";
          assumed_namespace = "shop";
          group_version_kind =
              some (record { group = "apps"; version = "v1"; kind = "Deployment" });
        });
        manifest = some (record { value = "kind: Deployment" });
        orphaned_at = none;
      }
      ∷ [];
  hash_salt = "salt";
})

new_monitor-AreFiled : AreFiled new_monitor.states
unfolding lookup
new_monitor-AreFiled id s p = absurd (cc)

handle-Isolates_example :
    Handled
      (named command).0
      (named command).1
      new_monitor.states
      (handle toy [] unmarshal false meets command new_monitor)
handle-Isolates_example =
    handle-Isolates toy [] unmarshal false meets command new_monitor new_monitor-AreFiled

-- The number of reports that it passes on, and the error.
abbrev outcome : Effect ToyManifest (Monitor ToyManifest ℕ String) → Option (ℕ × Option String)
outcome none = none
outcome (some (m, (sent, err))) = some (length sent, err)

-- It does not panic, fails nowhere, and reports the snapshot that it takes.
sent_one : outcome (handle toy [] unmarshal false meets command new_monitor) ≡ some (1, none)
unfolding handle ensure lookup to_cluster_desired_resource_for_version
    Targets.merge_desired_resources insert merge_desired Instance.merge_desired_resources
    resolve_namespace add_resource_lists key_beq resource_key get_root_parent_resource
sent_one = refl
