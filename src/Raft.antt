-- ===== src/Raft.antt =====
-- src/xzero/raft: the messages and their wire format, and the server.
pub mod Rpc
pub mod Generator
pub mod Parser
pub mod Framing
pub mod Storage
pub mod Server
pub mod Cluster
