-- ===== src/Node.antt =====
-- node/: the parts of one chat node.
pub mod SessionState
pub mod DedupCache
pub mod AuthStore
pub mod Persistence
pub mod SessionManager
pub mod Mesh
pub mod Password
pub mod Server
mod Examples
