-- ===== src/Fat32.antt =====
-- src/fs/fat32.c and fat32.h: FAT12, FAT16 and FAT32 volumes. The children model the file from the
-- boot sector to reading and writing a file, and prove what each part does.
pub mod Volume
pub mod Cluster
pub mod Entry
pub mod Directory
pub mod File
pub mod Scans
pub mod Bounds
pub mod Layout
pub mod LongNames
pub mod ReadFile
pub mod WriteFile
pub mod Paths
pub mod Sample
mod Examples
