-- ===== src/Memory.antt =====
-- internal/svc/memory.go: the persistent memory of the agent and of its projects.
pub mod Text
pub mod Slugs
pub mod Files
pub mod Agents
pub mod Recall
pub mod Extract
pub mod Header
pub mod Walk
pub mod Queue
pub mod Selected
mod Examples
