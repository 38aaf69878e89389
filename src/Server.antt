-- ===== src/Server.antt =====
-- internal/server: the registries and the state of a connection.
pub mod Slowlog
pub mod Topics
pub mod Client
pub mod Clients
pub mod Registry
pub mod ConnMachine
