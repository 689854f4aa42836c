-- ===== src/Agent.antt =====
-- internal/svc/agent.go: the loop that sends a session to the provider, runs the tools that the answer
-- calls, and sends the session again.
pub mod Collector
pub mod Loop
pub mod Closed
pub mod Stream
pub mod Log
pub mod Ends
mod Examples
