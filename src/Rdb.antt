-- ===== src/Rdb.antt =====
-- The RDB snapshot format of internal/rdb: the loader and the writer.
pub mod Reader
pub mod Lzf
pub mod Load
pub mod Snapshot
pub mod Restore
