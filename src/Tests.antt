-- ===== src/Tests.antt =====
-- A small system, on which the theorems are applied: a service that needs another, and a socket.
pub mod Samples
pub mod Lifecycles
pub mod Graphs
pub mod Tables
pub mod Pools
pub mod Stores
pub mod Sockets
pub mod Services
pub mod Loading
pub mod Control
pub mod Parser
pub mod Messages
