-- ===== src/Buffer.antt =====
-- src/buffer: the user-space buffer pool with its graph-aware 2Q eviction policy.
pub mod Queue
pub mod Policy
pub mod Pool
pub mod Hubs
pub mod Page
