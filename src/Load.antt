-- ===== src/Load.antt =====
-- crates/lug-load: the load generator.
pub mod Ledger
mod Examples
