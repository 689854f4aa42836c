-- ===== src/Session/Turns.antt =====
-- The sessions that the agent's turns make, and the log that they leave.
pub mod Coded
pub mod State
pub mod Steps
pub mod Edits
pub mod Reload
