-- ===== src/Units.antt =====
-- src/units: what a unit is, its identifier, status, configuration and dependencies, and the table of
-- all units with the shared state around it.
pub mod Id
pub mod Status
pub mod Config
pub mod Dependencies
pub mod Unit
pub mod Runtime
pub mod Locking
pub mod Transitions
pub mod Lifecycle
