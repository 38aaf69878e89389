-- ===== src/Tests.antt =====
-- The theorems at concrete inputs, and runs of the models.
pub mod Protocol
pub mod Server
pub mod Storage
mod Rdb
mod Machine
mod Keyspace
