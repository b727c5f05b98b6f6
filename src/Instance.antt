-- ===== src/Instance.antt =====
-- internal/cluster/application_instance.go: the desired and monitored resources of one application
-- instance. The methods on the struct return the new struct.
pub mod State
pub mod Owners
pub mod Events
pub mod Reports
pub mod Standing
pub mod Roots
pub mod SelfOwned
pub mod Returns
unfoldable pub use State.*
unfoldable pub use Owners.*
unfoldable pub use Events.*
