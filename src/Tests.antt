-- ===== src/Tests.antt =====
-- Concrete inputs at which the theorems apply, and runs of the model on them.
pub mod Fixtures
pub mod Values
pub mod Sessions
pub mod Machines
pub mod Servers
pub mod Pipelines
pub mod Players
pub mod Connections
pub mod Messages
pub mod Connected
pub mod Casts
