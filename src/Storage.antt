-- ===== src/Storage.antt =====
-- internal/storage: the values behind a key and their encodings.
pub mod IntSet
pub mod Stream
pub mod CompactHash
pub mod Keyspace
pub mod ListWaiters
pub mod Expiry
