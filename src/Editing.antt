-- ===== src/Editing.antt =====
-- internal/infra/tools/file: the tools that read, write and edit files, and the cache by which they
-- tell whether a file was read before it is changed.
pub mod Replace
pub mod Disk
pub mod Cache
pub mod Tools
pub mod Reader
pub mod Edits
pub mod Fresh
pub mod Kept
pub mod Seen
pub mod Runs
pub mod Lines
mod Examples
