-- ===== src/Activation.antt =====
-- src/units/unitset_manipulation/activate.rs: which units have to be started for a target, when a unit
-- can be, and how they are started.
pub mod Subgraph
pub mod Pool
