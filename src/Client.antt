-- ===== src/Client.antt =====
-- crates/lug-client: the client.
pub mod Error
pub mod Follower
