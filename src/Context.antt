-- ===== src/Context.antt =====
-- internal/svc/context.go: the bounded view of a conversation that goes to the provider.
pub mod Tokens
pub mod Preview
pub mod Turns
pub mod Manager
pub mod Limits
mod Examples
