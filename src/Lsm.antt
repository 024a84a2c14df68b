-- ===== src/Lsm.antt =====
-- src/compaction: the LSM write path.
pub mod Entry
pub mod MemTable
pub mod Bloom
pub mod SsTable
pub mod Wal
pub mod Merge
pub mod Worker
pub mod Writer
