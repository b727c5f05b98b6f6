-- ===== src/Reports.antt =====
-- What the monitor passes on to Octopus, whichever way it came about (internal/cluster/cluster.go,
-- internal/commands/desired_resources_handlers.go, internal/watcher/resource_monitor_loop.go), as the
-- mapping of internal/protos meets it.
pub mod Statuses
pub mod Snapshots
pub mod Replies
pub mod Rescans
pub mod Commands
pub mod Changes
pub mod Mapped
