-- ===== src/Lib.antt =====
-- Kubernetes Monitor: the agent that watches a Kubernetes cluster for Octopus Deploy.
--
-- Octopus sends the resources that it expects in the cluster, per target (a machine) and application
-- instance. The monitor keeps them, compares them with what gitops-engine's cluster cache holds, and
-- sends back what is present, missing, unknown or a child of something present.
--
-- Each struct is a record, a method that changes it returns the new struct, and an error is a
-- `Result`. Go's maps are association lists, whose order stands for the order in which Go happens to
-- iterate. `none` in place of an outcome is a panic or a recursion that never ends. Kubernetes' client
-- libraries and gitops-engine are parameters, the fields of `Kubernetes` (Resources/Libraries.antt)
-- and of `SharedCluster` (Snapshot/Connection.antt). Logging, tracing and contexts are left out.
--
-- Prelude: the libraries' names, lists, sets and maps.
-- Buffer: internal/cluster/buffer.go.
-- Health: internal/health.
-- Resources: the data of internal/cluster (desired_resource.go, references.go, sync_status.go,
--   sanitize_manifest.go, the four monitored resources) and internal/crypto/hash.go.
-- Instance: internal/cluster/application_instance.go, and `getRootParentResource` of cluster.go. That
--   search is an unbounded recursion: the model gives it one step more than there are children, which
--   is enough whenever it ends (Instance/Roots.antt).
-- Interests: internal/cluster/resource_interests.go.
-- ChangeQueue: internal/cluster/resource_changes.go, as a relation over the runs of its loop.
-- Permissions: internal/cluster/permission_filter.go.
-- Communication: internal/communication/grpc_utilities.go, and the supervisor loop of
--   internal/commands/command_handler.go over a list of what its stream meets.
-- Snapshot: internal/cluster/shared_cluster.go.
-- ClusterState: internal/cluster/cluster_state.go, over Instance, Snapshot and Interests.
-- Registry: internal/cluster/cluster_list.go.
-- Targets: the operations of internal/cluster/cluster.go on one target, and internal/cluster/mailbox.go.
-- Logs, Events: what internal/cluster/cluster.go and shared_cluster.go read of a pod's log and of a
--   resource's events. A stream is the list of the pieces in which it arrives, and how it ends.
-- Handlers: internal/logs/handler.go and internal/events/handler.go, a request at a time and the loop.
-- Protos: the mapping of internal/protos between these data and the messages of its definitions.
-- Commands: internal/commands, one command over the registry, the targets' states and the index.
-- Sender: internal/watcher/resource_updates.go, as a relation over the runs of its queue and workers.
--   The order, capacity and blocking of a channel are Go's and are premises of its steps; that a
--   request which a worker holds ends is assumed of the gRPC client.
-- Watcher: internal/watcher/watcher.go, over a list of the signals that its supervisor meets. The
--   supervisor's own reports are in its state, those of `forwardErrors` are `forward_errors`'s.
-- Reports: the data that the monitor passes on, from internal/cluster to the messages.
-- Sweeps: `ApplicationInstanceUpdates` of internal/cluster/cluster_list.go over all targets, and a tick of
--   internal/watcher/resource_monitor_loop.go.
-- Configuration: internal/config, what is done with the settings that were read.
-- Examples: a small cluster, and runs of the theorems on it.
--
-- The change queue stands between the cache and a target: the cache's events pass the interest index,
-- which routes them to the queues, and each target's goroutine takes them from its queue and applies
-- them to its application instances; a sweep replaces what an application instance holds by a
-- snapshot. Commands from Octopus change what a target desires. What a change, a sweep or a command
-- leaves to report is mapped to messages; updates pass the sender's queue.
--
-- Not modelled: the command line, telemetry, the reading and writing of settings (Viper, files,
-- Kubernetes objects), gRPC and its generated code, the construction of clients, the ticker,
-- and test builders: they are calls of libraries with no state of their own.
pub mod Prelude
pub mod Buffer
pub mod Health
pub mod Resources
pub mod Instance
pub mod Interests
pub mod ChangeQueue
pub mod Snapshot
pub mod Communication
pub mod Permissions
pub mod Logs
pub mod Events
pub mod Protos
pub mod ClusterState
pub mod Registry
pub mod Targets
pub mod Commands
pub mod Reports
pub mod Sweeps
pub mod Sender
pub mod Watcher
pub mod Handlers
pub mod Configuration
pub mod Examples
