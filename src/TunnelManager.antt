-- ===== src/TunnelManager.antt =====
-- tunnel_manager.go: creating and deleting tunnels, in the database and in the file authorized_keys.
pub mod Keys
pub mod Manager
pub mod Outcome
pub mod Invariant
pub mod KeyFile
pub mod Revocation
pub mod ForeignLines
