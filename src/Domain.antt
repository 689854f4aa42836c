-- ===== src/Domain.antt =====
-- internal/domain and the roles of pkg/llm: the values that the components exchange.
pub mod Permission
pub mod Conversation
pub mod Metrics
