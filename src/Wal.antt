-- ===== src/Wal.antt =====
-- crates/lug-wal: the log as segment files on disk.
pub mod Format
pub mod Segment
pub mod Files
pub mod Store
mod Examples
