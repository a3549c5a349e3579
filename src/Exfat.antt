-- ===== src/Exfat.antt =====
-- src/fs/exfat.c: the exFAT file system.
pub mod Volume
pub mod Entry
pub mod Directory
pub mod File
pub mod Bounds
pub mod Paths
pub mod Files
pub mod Layout
mod Examples
