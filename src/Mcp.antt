-- ===== src/Mcp.antt =====
-- internal/infra/mcp/manager.go and internal/infra/mcp/tool.go: the servers of the Model Context
-- Protocol, and their tools.
pub mod Tool
pub mod Manager
pub mod Discovery
pub mod Totals
mod Examples
