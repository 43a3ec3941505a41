-- ===== src/Tests.antt =====
-- The theorems at concrete inputs.
pub mod Wire
pub mod Agent
pub mod Client
pub mod Vault
pub mod Kubernetes
pub mod Cli
pub mod Hooks
pub mod Files
pub mod Init
pub mod Server
pub mod EndToEnd
pub mod Support
pub mod Injector
