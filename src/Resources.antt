-- ===== src/Resources.antt =====
-- The data of internal/cluster: what Octopus desires, what the cache holds, what the monitor found,
-- and what it sends.
pub mod Libraries
pub mod Desired
pub mod Cache
pub mod References
pub mod Sync
pub mod Sanitize
pub mod Sanitized
pub mod Monitored
unfoldable pub use Libraries.*
unfoldable pub use Desired.*
unfoldable pub use Cache.*
unfoldable pub use References.*
unfoldable pub use Sync.*
unfoldable pub use Sanitize.*
unfoldable pub use Monitored.*
