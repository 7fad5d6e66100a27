-- ===== src/Rufs.antt =====
-- p4/code: the file system's parts.
pub mod Bitmap
pub mod Layout
pub mod Disk
pub mod Inodes
pub mod Directory
pub mod Paths
pub mod Setup
pub mod Format
pub mod Entries
pub mod Files
mod Tests
