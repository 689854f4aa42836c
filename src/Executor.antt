-- ===== src/Executor.antt =====
-- internal/infra/executor.go: one tool call from its text to its result, and the collection of the
-- results of calls that run at the same time.
pub mod Run
pub mod Collect
pub mod Slots
pub mod Order
pub mod Gate
mod Examples
