-- ===== src/Graph.antt =====
-- src/core: the graph index.
pub mod Nav
pub mod Prune
pub mod Search
pub mod Builder
pub mod Index
pub mod Visited
