-- ===== src/Cavlc.antt =====
-- The reference data structure, crates/cavlc: an immutable JSON store with versions.
pub mod Value
pub mod Avl
pub mod Error
pub mod Patch
pub mod Store
mod Examples
