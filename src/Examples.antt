-- ===== src/Examples.antt =====
-- Runs of the theorems on concrete inputs, and tests of the definitions.
pub mod Toy
pub mod Web
pub mod Instances
pub mod Queues
pub mod Snapshots
pub mod Rest
pub mod Targets
pub mod Registries
pub mod Logs
pub mod Messages
pub mod Commands
pub mod Watchers
pub mod Sweeps
