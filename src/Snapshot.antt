-- ===== src/Snapshot.antt =====
-- internal/cluster/shared_cluster.go: the connection that all targets share, and the snapshot it
-- takes of the resources of one application instance.
pub mod Connection
pub mod Scan
pub mod Missing
pub mod Names
pub mod Marks
pub mod Filed
pub mod Shown
pub mod Accounts
pub mod Targets
pub mod Returns
unfoldable pub use Connection.*
unfoldable pub use Scan.*
unfoldable pub use Missing.*
