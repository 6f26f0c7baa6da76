-- ===== src/Server.antt =====
-- crates/lug-server: the daemon.
pub mod Ring
pub mod Json
pub mod Acl
pub mod Memory
pub mod Actor
pub mod Stream
pub mod Session
mod Examples
