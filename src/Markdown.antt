-- ===== src/Markdown.antt =====
-- The prompt commands in Markdown files: internal/infra/command/loader.go.
pub mod Text
pub mod Load
pub mod Merge
pub mod Rendered
pub mod Read
pub mod Header
mod Examples
