-- ===== src/Disk.antt =====
-- The disk-resident index of src/io/disk_layout.h and src/io/disk_layout.cpp.
pub mod Record
pub mod Writer
pub mod Reader
