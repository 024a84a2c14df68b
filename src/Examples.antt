-- ===== src/Examples.antt =====
-- Concrete inputs for the theorems, and tests of the definitions.
mod Buffer
mod Pages
mod Lsm
mod Graph
mod Builder
mod Disk
mod Engine
mod Storage
