-- ===== src/Container.antt =====
-- Package internal/container: the state of one container and the operations on it.
pub mod Types
pub mod Load
pub mod RestartGuard
pub mod Lifecycle
pub mod Memory
pub mod Ports
pub mod HostPath
pub mod Dns
mod Examples
