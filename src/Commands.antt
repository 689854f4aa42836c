-- ===== src/Commands.antt =====
-- internal/domain/command.go and internal/svc/command.go: slash commands and their registry.
pub mod Parse
pub mod Table
pub mod Laws
mod Examples
