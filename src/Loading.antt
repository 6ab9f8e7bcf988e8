-- ===== src/Loading.antt =====
-- src/units/loading: the resolution of the dependencies between the units that were read.
pub mod Prune
pub mod Edges
pub mod Fill
pub mod Sockets
pub mod Resolve
