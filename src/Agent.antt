-- ===== src/Agent.antt =====
-- crates/envproxy-agent: the daemon that resolves keys.
pub mod Backend
pub mod Config
pub mod Start
pub mod Server
pub mod File
pub mod Http
pub mod Vault
pub mod Kubernetes
