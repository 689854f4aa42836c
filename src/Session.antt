-- ===== src/Session.antt =====
-- internal/infra/session/session.go: the ledger of a conversation, its append-only log, and the way
-- back from the log to the ledger.
pub mod Ids
pub mod Ledger
pub mod Load
pub mod Replay
pub mod Numbers
pub mod Turns
mod Examples
