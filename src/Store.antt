-- ===== src/Store.antt =====
-- The sessions on the disk: internal/infra/session/store.go and internal/svc/session.go.
pub mod Table
pub mod Match
pub mod Loads
mod Examples
