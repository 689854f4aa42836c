-- ===== src/Approval.antt =====
-- internal/infra/approval/approval.go: the checks of commands and of paths, the broker that decides
-- on an invocation, and what the broker guarantees.
pub mod Commands
pub mod Paths
pub mod Broker
pub mod Workspace
pub mod Safety
mod Examples
