-- ===== src/Core.antt =====
-- crates/lug-core: the contracts between a data structure, its storage and the log that joins them.
pub mod Reducible
pub mod Storage
pub mod Log
pub mod Noop
pub mod CavlcImpl
mod Examples
