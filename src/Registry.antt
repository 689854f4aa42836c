-- ===== src/Registry.antt =====
-- internal/infra/tools/registry.go and internal/infra/tools/toolsearch/toolsearch.go: the tools that the
-- provider sees, and the search for those that it does not see yet.
pub mod Store
pub mod Search
pub mod Visible
pub mod Found
mod Examples
