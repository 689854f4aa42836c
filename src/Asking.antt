-- ===== src/Asking.antt =====
-- The questions to the user: internal/infra/tools/askuser and cmd/cli/controller/ask.go.
pub mod Tool
pub mod Dialog
pub mod Answered
pub mod Lost
mod Examples
