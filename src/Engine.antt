-- ===== src/Engine.antt =====
-- src/engine: the query processor, the prefetcher and the storage engine.
pub mod Order
pub mod Query
pub mod Processor
pub mod IoEngine
pub mod Prefetcher
pub mod Storage
