-- ===== src/Orchestrator.antt =====
-- Package internal/orchestrator: services, the nodes that run their replicas, and rolling updates.
pub mod Types
pub mod Services
pub mod Scheduler
pub mod Rolling
pub mod Reconcile
mod Examples
