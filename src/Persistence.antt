-- ===== src/Persistence.antt =====
-- src/persistence: the append-only file and the snapshot file.
pub mod Aof
pub mod Rdb
pub mod Config
pub mod Manager
pub mod Entries
